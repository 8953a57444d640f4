-- ===== src/Server.antt =====
-- host/board/coil_servo_server.py: the register server on the board. The store behind it is the
-- one of MockMem, `words.get(a, 0)`, as a function of the address.
pub mod Stream
pub mod Store
pub mod Rounds
pub mod Window
pub mod Client
use coil_servo.Base.{
  ℕ, zero, suc, ◌+◌, ◌-◌, ◌*◌, ◌%◌, ◌^◌, Bool, true, false, ◌&&◌, ◌||◌, if◌then◌else◌, leb, ltb,
  ◌==◌, List, [], ◌∷◌, ◌++◌, take, drop, length, Result, ok, err, Error, ◌>>=◌,
}
use coil_servo.Base.Bytes.{le32, word_of}

abbrev pub hub_base : ℕ
hub_base = 0x4000_0000

abbrev pub hub_span : ℕ
hub_span = 0x0800_0000

abbrev pub max_words : ℕ
max_words = 65536

-- A dictionary of which only `get(a, 0)` is read.
abbrev pub Words : Type 0
Words = ℕ → ℕ

-- `self.words[a] = w`.
abbrev pub put : Words → ℕ → ℕ → Words
put words a w x = if x == a then w else words x

-- The loop of `MockMem.read` over the last `left` values of `k`.
unfoldable pub read_from : Words → ℕ → Bool → ℕ → ℕ → List ℕ
read_from words addr pop k zero = []
read_from words addr pop k (suc left) =
    le32 (words (if pop then addr else addr + 4 * k)) ++ read_from words addr pop (k + 1) left

unfoldable pub read : Words → ℕ → ℕ → Bool → List ℕ
unfolding read_from
read words addr count pop = read_from words addr pop 0 count

-- `MockMem.write`, four bytes a round; `unpack_from` raises on fewer.
unfoldable pub write : Words → ℕ → List ℕ → Result Words
write words addr [] = ok words
write words addr (a ∷ b ∷ c ∷ d ∷ bytes) = write (put words addr (word_of a b c d)) (addr + 4) bytes
write words addr (a ∷ []) = err Error.struct_error
write words addr (a ∷ b ∷ []) = err Error.struct_error
write words addr (a ∷ b ∷ c ∷ []) = err Error.struct_error

-- A connection: the segments that `recv` will find, none empty, and then the end.
abbrev pub Conn : Type 0
Conn = List (List ℕ)

-- `recv_exact`, with what is in `buf` so far. A segment that is longer than what is missing is cut,
-- and the loop ends.
unfoldable pub recv_exact : ℕ → List ℕ → Conn → Result (List ℕ × Conn)
recv_exact n buf [] = if ltb (length buf) n then err Error.connection_error else ok (buf, [])
recv_exact n buf (chunk ∷ conn) =
    let rest = recv_exact n (buf ++ chunk) conn in
    let missing = n - length buf in
    if ltb (length buf) n
    then if length chunk == 0
      then err Error.connection_error
      else if leb (length chunk) missing
      then rest
      else ok (buf ++ take missing chunk, drop missing chunk ∷ conn)
    else ok (buf, chunk ∷ conn)

unfoldable pub valid : ℕ → ℕ → Bool
valid addr count =
    leb hub_base addr
    && leb (addr + 4 * count) (hub_base + hub_span)
    && (addr % 4 == 0)
    && leb 1 count
    && leb count max_words

abbrev pub same_bytes : List ℕ → List ℕ → Bool
same_bytes [] [] = true
same_bytes [] (y ∷ ys) = false
same_bytes (x ∷ xs) [] = false
same_bytes (x ∷ xs) (y ∷ ys) = (x == y) && same_bytes xs ys

-- b"WRIT", b"READ", b"POPS", b"OK  " and b"ERR ".
abbrev pub writ : List ℕ
writ = 87 ∷ 82 ∷ 73 ∷ 84 ∷ []

abbrev pub reads : List ℕ
reads = 82 ∷ 69 ∷ 65 ∷ 68 ∷ []

abbrev pub pops : List ℕ
pops = 80 ∷ 79 ∷ 80 ∷ 83 ∷ []

abbrev pub ok_status : List ℕ
ok_status = 79 ∷ 75 ∷ 32 ∷ 32 ∷ []

abbrev pub err_status : List ℕ
err_status = 69 ∷ 82 ∷ 82 ∷ 32 ∷ []

-- A field of the header, and the four bytes at a place.
abbrev pub header_word : List ℕ → ℕ
header_word (a ∷ b ∷ c ∷ d ∷ rest) = word_of a b c d
header_word (a ∷ b ∷ c ∷ []) = 0
header_word (a ∷ b ∷ []) = 0
header_word (a ∷ []) = 0
header_word [] = 0

-- The part of `handle_client` under the lock, for b"WRIT" and for the two reads: what is sent, and
-- the store.
unfoldable pub answer_write : Words → ℕ → ℕ → List ℕ → Result (List ℕ × Words)
answer_write words addr count bytes =
    if valid addr count
    then (write words addr bytes >>= λ words'. ok (ok_status, words'))
    else ok (err_status, words)

unfoldable pub answer_read : Words → ℕ → ℕ → Bool → List ℕ
answer_read words addr count pop =
    if valid addr count then ok_status ++ read words addr count pop else err_status

-- What `handle_client` does once the header is unpacked.
unfoldable pub dispatch : Words → List ℕ → ℕ → ℕ → Conn → Result (List ℕ × Words × Conn)
dispatch words cmd addr count body =
    if same_bytes cmd writ
    then (recv_exact (4 * count) [] body >>= λ got.
        answer_write words addr count got.0 >>= λ answer. ok (answer.0, answer.1, got.1))
    else ok (
      (if same_bytes cmd reads || same_bytes cmd pops
          then answer_read words addr count (same_bytes cmd pops)
          else err_status),
      words,
      body,
    )

-- One round of `handle_client`: what is sent, the store, and the connection.
unfoldable pub handle : Words → Conn → Result (List ℕ × Words × Conn)
handle words conn = do
  (header, body) ← recv_exact 12 [] conn
  dispatch words (take 4 header) (header_word (drop 4 header)) (header_word (drop 8 header)) body

-- `_HEADER.pack(cmd, addr, count) + payload`: what the client sends.
abbrev pub request : List ℕ → ℕ → ℕ → List ℕ → List ℕ
request cmd addr count payload = cmd ++ (le32 addr ++ (le32 count ++ payload))
