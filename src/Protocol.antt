-- ===== src/Protocol.antt =====
-- The raw protocol of `Board` in host/coil_servo_host/board.py: what a call sends, and what it makes of
-- the replies, the stream of which is a connection as the server has it.
pub mod Wire
use mathlib.Core.Path.{subst}
use mathlib.Core.List.{append-nil}
use coil_servo.Base.{
  ℕ, ◌*◌, ◌%◌, ◌≤◌, ◌<◌, ◌^◌, ◌≡◌, refl, sym, ap, ◌∙◌, arith, true, ◌||◌, if◌then◌else◌, List, [],
  ◌∷◌, ◌++◌, map, All, length, take, drop, length-append, take_all, drop_all, Result, ok, err,
  Error, ◌>>=◌,
}
use coil_servo.Base.Bytes.{word_of, word_of-le32, pack_words, length-pack_words}
use coil_servo.Server.{
  Words, Conn, valid, same_bytes, writ, reads, pops, ok_status, recv_exact, handle, request,
}
use coil_servo.Server.Stream.{bytes_of, IsLive, recv_exact-take}
use coil_servo.Server.Rounds.{read_after_write}

-- `_request` once the request is sent: the bytes of the reply after its status.
unfoldable pub receive : List ℕ → ℕ → Conn → Result (List ℕ × Conn)
receive cmd count replies = do
  (status, more) ← recv_exact 4 [] replies
  if same_bytes status ok_status
      then (if same_bytes cmd reads || same_bytes cmd pops
          then recv_exact (4 * count) [] more
          else ok ([], more))
      else err Error.io_error

-- `struct.unpack(f"<{count}I", data)` on whole words.
abbrev pub unpack_words : List ℕ → List ℕ
unpack_words (a ∷ b ∷ c ∷ d ∷ bytes) = word_of a b c d ∷ unpack_words bytes
unpack_words (a ∷ b ∷ c ∷ []) = []
unpack_words (a ∷ b ∷ []) = []
unpack_words (a ∷ []) = []
unpack_words [] = []

-- `w & 0xFFFFFFFF`.
abbrev pub masked : ℕ → ℕ
masked w = w % 2 ^ 32

-- `Board.write_words`, what it sends and what it returns.
unfoldable pub send_write : ℕ → List ℕ → List ℕ
send_write addr words = request writ addr (length words) (pack_words (map masked words))

unfoldable pub write_words : List ℕ → Conn → Result (Unit {0} × Conn)
write_words words replies = do (nothing, more) ← receive writ (length words) replies; ok (tt, more)

-- `Board.read_words`.
unfoldable pub send_read : ℕ → ℕ → List ℕ
send_read addr count = request reads addr count []

unfoldable pub read_words : ℕ → Conn → Result (List ℕ × Conn)
read_words count replies = do
  (bytes, more) ← receive reads count replies
  ok (unpack_words bytes, more)

pub unpack-pack_words : (ws : List ℕ) → All (λ w. w < 2 ^ 32) ws → unpack_words (pack_words ws) ≡ ws
unpack-pack_words [] h = refl
unpack-pack_words (w ∷ ws) (h, hs) =
    ap (λ v. v ∷ unpack_words (pack_words ws)) (word_of-le32 w h)
    ∙ ap (λ l. w ∷ l) (unpack-pack_words ws hs)

pub map-masked_fits : (ws : List ℕ) → All (λ w. w < 2 ^ 32) (map masked ws)
map-masked_fits [] = tt
map-masked_fits (w ∷ ws) = (omega arith, map-masked_fits ws)

pub length-map-masked : (ws : List ℕ) → length (map masked ws) ≡ length ws
length-map-masked [] = refl
length-map-masked (w ∷ ws) = omega (arith, length-map-masked ws)

pub write_words_ok :
    (words rest : List ℕ) (down : Conn)
    → IsLive down
    → bytes_of down ≡ ok_status ++ rest
    → (more : Conn) × (write_words words down ≡ ok (tt, more))
      × (bytes_of more ≡ rest)
      × IsLive more
unfolding write_words receive
write_words_ok words rest down live e =
    let (more, ran, left, live') =
      recv_exact-take 4 down live (subst (λ l. 4 ≤ length l) (sym e) (omega arith)) in
    let status : List ℕ × Conn → Result (List ℕ × Conn) =
      λ got. if same_bytes got.0 ok_status then ok ([], got.1) else err Error.io_error in
    let go : Result (List ℕ × Conn) → Result (Unit {0} × Conn) =
      λ r. (r >>= status) >>= λ got. ok (tt, got.1) in
    (more, ap go (ran ∙ ap (λ l. ok (take 4 l, more)) e), left ∙ ap (drop 4) e, live')

pub read_words_ok :
    (ws rest : List ℕ) (down : Conn)
    → IsLive down
    → All (λ w. w < 2 ^ 32) ws
    → bytes_of down ≡ ok_status ++ (pack_words ws ++ rest)
    → (more : Conn) × (read_words (length ws) down ≡ ok (ws, more)) × (bytes_of more ≡ rest)
unfolding read_words receive
read_words_ok ws rest down live fits e =
    let k = 4 * length ws in
    let (body, ran, left, live') =
      recv_exact-take 4 down live (subst (λ l. 4 ≤ length l) (sym e) (omega arith)) in
    let e' : bytes_of body ≡ pack_words ws ++ rest = left ∙ ap (drop 4) e in
    let (more, ran2, left2, live2) = recv_exact-take k body live' (
      subst (λ l. k ≤ length l) (sym e')
        (omega (arith, length-append (pack_words ws) rest, length-pack_words ws))) in
    let go : Result (List ℕ × Conn) → Result (List ℕ × Conn) = λ r.
      (r >>= λ got.
      if same_bytes got.0 ok_status then recv_exact k [] got.1 else err Error.io_error)
      >>= λ got. ok (unpack_words got.0, got.1) in
    let unpack : Result (List ℕ × Conn) → Result (List ℕ × Conn) =
      λ r. r >>= λ got. ok (unpack_words got.0, got.1) in
    (
      more,
      ap go (ran ∙ ap (λ l. ok (take 4 l, body)) e)
          ∙ ap unpack (ran2 ∙ ap (λ l. ok (take k l, more)) e')
          ∙ ap (λ l. ok (unpack_words l, more))
              (take_all k (pack_words ws) rest (length-pack_words ws))
          ∙ ap (λ l. ok (l, more)) (unpack-pack_words ws fits),
      left2 ∙ ap (drop k) e' ∙ drop_all k (pack_words ws) rest (length-pack_words ws),
    )

-- What `write_words` and then `read_words` send, cut into any segments on its way, is answered by the
-- server in two rounds; and from these two replies, cut into any segments on their way, the two
-- calls return without an exception, the second one the words given to the first, modulo 2 ^ 32.
pub write_then_read :
    (store : Words) (addr : ℕ) (words : List ℕ) (up : Conn)
    → valid addr (length words) ≡ true
    → IsLive up
    → bytes_of up ≡ send_write addr words ++ send_read addr (length words)
    → (store' : Words) × (between after : Conn) × (reply1 reply2 : List ℕ) × (handle store up
        ≡ ok (reply1, store', between))
      × (handle store' between ≡ ok (reply2, store', after))
      × ((down : Conn)
          → IsLive down
          → bytes_of down ≡ reply1 ++ reply2
          → (more last : Conn) × (write_words words down ≡ ok (tt, more))
            × (read_words (length words) more ≡ ok (map masked words, last)))
unfolding send_write send_read
write_then_read store addr words up v live e =
    let ws = map masked words in
    let n = length words in
    let same : length ws ≡ n = length-map-masked words in
    let fits = map-masked_fits words in
    let v' : valid addr (length ws) ≡ true = ap (valid addr) same ∙ v in
    let e' : bytes_of up
        ≡ request writ addr (length ws) (pack_words ws ++ request reads addr (length ws) []) =
      e
      ∙ ap (λ (k : ℕ). request writ addr k (pack_words ws ++ request reads addr k [])) (sym same) in
    let (store', between, after, first, second, end) =
      read_after_write store up addr ws [] live v' fits e' in
    (
      store',
      between,
      after,
      ok_status,
      ok_status ++ pack_words ws,
      first,
      second,
      λ down live' d.
          let (more, wrote, left, live2) =
            write_words_ok words (ok_status ++ pack_words ws) down live' d in
          let (last, got, rest) =
            read_words_ok ws [] more live2 fits
              (left ∙ ap (λ l. ok_status ++ l) (sym (append-nil (pack_words ws)))) in
          (more, last, wrote, ap (λ (k : ℕ). read_words k more) (sym same) ∙ got),
    )
