-- ===== src/Tests/Servers.antt =====
-- The server at concrete inputs.
use coil_servo.Base.{
  ℕ, ◌*◌, ◌≤◌, ◌<◌, ◌⊎◌, ap, true, some, none, length, map, ◌≡◌, refl, arith, List, [], ◌∷◌, ◌++◌,
  take, drop, ok,
}
use coil_servo.Base.Bytes.{pack_words}
use coil_servo.Protocol.{send_write, send_read, write_words, read_words, write_then_read}
use coil_servo.Server.Client.{serve_rounds, serve_rounds_ends}
use coil_servo.Protocol.Wire.{Network, words_from, wire_write, wire_read, wire_refines, server_link}
use coil_servo.Board.{Board, connect}
use coil_servo.Board.Write.{IsCoherent}
use coil_servo.Board.Connect.{connect-IsCoherent}
use coil_servo.Server.{Words, Conn, valid, writ, reads, ok_status, recv_exact, handle, request}
use coil_servo.Server.Stream.{bytes_of, IsLive, recv_exact-take}
use coil_servo.Server.Rounds.{read_after_write}

abbrev empty_store : Words
empty_store a = 0

abbrev three_segments : Conn
three_segments = (1 ∷ 2 ∷ []) ∷ (3 ∷ []) ∷ (4 ∷ 5 ∷ 6 ∷ []) ∷ []

recv_exact-take_example :
    (next : Conn) × (recv_exact 4 [] three_segments ≡ ok (1 ∷ 2 ∷ 3 ∷ 4 ∷ [], next))
    × (bytes_of next ≡ 5 ∷ 6 ∷ [])
    × IsLive next
recv_exact-take_example = recv_exact-take 4 three_segments (omega arith) (omega arith)

abbrev two_words : List ℕ
two_words = 0xdeadbeef ∷ 7 ∷ []

-- The two requests, cut after five bytes.
abbrev both_requests : List ℕ
both_requests = request writ 0x4000_0008 2 (pack_words two_words ++ request reads 0x4000_0008 2 [])

abbrev cut : Conn
cut = take 5 both_requests ∷ drop 5 both_requests ∷ []

read_after_write_example :
    (words' : Words) × (between after : Conn) × (handle empty_store cut
      ≡ ok (ok_status, words', between))
    × (handle words' between ≡ ok (ok_status ++ pack_words two_words, words', after))
    × (bytes_of after ≡ [])
unfolding valid
read_after_write_example =
    read_after_write empty_store cut 0x4000_0008 two_words [] (omega arith) refl (omega arith) refl

abbrev stray : Conn
stray = request writ 0x1000 1 (pack_words (5 ∷ [])) ∷ []

abbrev write_only : Conn
write_only = request writ 0x4000_0008 2 (pack_words two_words) ∷ []

serve_rounds_ends_example :
    (replies : List (List ℕ)) × (last : Words) × (serve_rounds 21 empty_store write_only
      ≡ some (replies, last))
    × (12 * length replies ≤ 20)
    × ((a : ℕ) → (a < 0x4000_0000) ⊎ (0x4800_0000 ≤ a) → last a ≡ 0)
serve_rounds_ends_example = serve_rounds_ends 21 empty_store write_only (omega arith)

abbrev long_words : List ℕ
long_words = 0x1_0000_0003 ∷ 9 ∷ []

abbrev sent : List ℕ
sent = send_write 0x4000_0000 long_words ++ send_read 0x4000_0000 2

write_then_read_example :
    (store' : Words) × (between after : Conn) × (reply1 reply2 : List ℕ) × (handle empty_store
        (take 3 sent ∷ drop 3 sent ∷ [])
      ≡ ok (reply1, store', between))
    × (handle store' between ≡ ok (reply2, store', after))
    × ((down : Conn)
        → IsLive down
        → bytes_of down ≡ reply1 ++ reply2
        → (more last : Conn) × (write_words long_words down ≡ ok (tt, more))
          × (read_words 2 more ≡ ok (3 ∷ 9 ∷ [], last)))
unfolding valid send_write send_read
write_then_read_example =
    write_then_read empty_store 0x4000_0000 long_words (take 3 sent ∷ drop 3 sent ∷ []) refl
      (omega arith) refl

-- A network that delivers every byte by itself.
single_bytes : (bytes : List ℕ) → bytes_of (map (λ b. b ∷ []) bytes) ≡ bytes
single_bytes [] = refl
single_bytes (b ∷ bytes) = ap (λ l. b ∷ l) (single_bytes bytes)

single_bytes-IsLive : (bytes : List ℕ) → IsLive (map (λ b. b ∷ []) bytes)
single_bytes-IsLive [] = tt
single_bytes-IsLive (b ∷ bytes) = (omega arith, single_bytes-IsLive bytes)

abbrev byte_by_byte : Network
byte_by_byte = record {
  cut = λ bytes. map (λ b. b ∷ []) bytes;
  joined = single_bytes;
  live = single_bytes-IsLive;
}

wire_refines_example :
    (store' : Words) × (wire_write byte_by_byte empty_store 0x4000_0000 long_words ≡ ok store')
    × (wire_read byte_by_byte store' 0x4000_0000 2 ≡ ok (3 ∷ 9 ∷ []))
    × ((a : ℕ) → (a < 0x4000_0000) ⊎ (0x4000_0008 ≤ a) → store' a ≡ 0)
    × ((a n : ℕ)
        → valid a n ≡ true
        → wire_read byte_by_byte store' a n ≡ ok (words_from store' a 0 n))
unfolding valid
wire_refines_example = wire_refines byte_by_byte empty_store 0x4000_0000 long_words refl

-- The client's object over the link that client and server make.
server_connects :
    (b : Board Words) × (connect (server_link byte_by_byte).wire empty_store none ≡ ok b)
    × (b.memory ≡ empty_store)
    × IsCoherent (server_link byte_by_byte).wire b
server_connects = connect-IsCoherent (server_link byte_by_byte) empty_store none
