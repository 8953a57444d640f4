-- ===== src/Server/Rounds.antt =====
-- Rounds of `handle_client` on requests that arrive in segments of any size.
use mathlib.Core.Path.{subst}
use coil_servo.Base.{
  ℕ, ◌*◌, ◌≤◌, ◌<◌, ◌^◌, ◌≡◌, refl, sym, ap, ◌∙◌, arith, Bool, false, true, List, [], ◌∷◌, ◌++◌,
  All, length, take, drop, length-append, Result, ok, ◌>>=◌, take_all, drop_all,
}
use coil_servo.Base.Bytes.{le32, word_of-le32, pack_words, length-pack_words}
use coil_servo.Server.{
  Words, Conn, valid, writ, reads, ok_status, err_status, header_word, read, answer_write,
  answer_read, dispatch, handle, request,
}
use coil_servo.Server.Stream.{bytes_of, IsLive, recv_exact-take}
use coil_servo.Server.Store.{put_words, write-pack_words, read-put_words}

-- The header is taken off the stream, however it is cut.
header_lem :
    (words : Words) (conn : Conn) (p q r s addr count : ℕ) (rest : List ℕ)
    → IsLive conn
    → addr < 2 ^ 32
    → count < 2 ^ 32
    → bytes_of conn ≡ request (p ∷ q ∷ r ∷ s ∷ []) addr count rest
    → (body : Conn) × (handle words conn ≡ dispatch words (p ∷ q ∷ r ∷ s ∷ []) addr count body)
      × (bytes_of body ≡ rest)
      × IsLive body
unfolding handle
header_lem words conn p q r s addr count rest live ha hc e =
    let (body, ran, left, live') =
      recv_exact-take 12 conn live (subst (λ l. 12 ≤ length l) (sym e) (omega arith)) in
    let next : Result (List ℕ × Conn) → Result (List ℕ × Words × Conn) = λ got. got >>= λ h.
    dispatch words (take 4 h.0) (header_word (drop 4 h.0)) (header_word (drop 8 h.0)) h.1 in
    (
      body,
      ap next (ran ∙ ap (λ l. ok (take 12 l, body)) e)
          ∙ ap (λ (a : ℕ). dispatch words (p ∷ q ∷ r ∷ s ∷ []) a (header_word (le32 count)) body)
              (word_of-le32 addr ha)
          ∙ ap (λ (c : ℕ). dispatch words (p ∷ q ∷ r ∷ s ∷ []) addr c body) (word_of-le32 count hc),
      left ∙ ap (drop 12) e,
      live',
    )

valid_small : (addr count : ℕ) → valid addr count ≡ true → (addr < 2 ^ 32) × (count < 2 ^ 32)
unfolding valid
valid_small addr count h = ground arith

-- The payload is taken off the stream.
dispatch_write :
    (words : Words) (addr count : ℕ) (body : Conn) (payload rest : List ℕ)
    → IsLive body
    → length payload ≡ 4 * count
    → bytes_of body ≡ payload ++ rest
    → (next : Conn) × (dispatch words writ addr count body
        ≡ (answer_write words addr count payload >>= λ answer. ok (answer.0, answer.1, next)))
      × (bytes_of next ≡ rest)
      × IsLive next
unfolding dispatch
dispatch_write words addr count body payload rest live len e =
    let (next, ran, left, live') =
      recv_exact-take (4 * count) body live
        (subst (λ l. 4 * count ≤ length l) (sym e) (omega (arith, length-append payload rest))) in
    let go : Result (List ℕ × Conn) → Result (List ℕ × Words × Conn) = λ r. r >>= λ got.
    answer_write words addr count got.0 >>= λ answer. ok (answer.0, answer.1, got.1) in
    (
      next,
      ap go (
          ran
          ∙ ap (λ l. ok (l, next))
              (ap (take (4 * count)) e ∙ take_all (4 * count) payload rest len)),
      left ∙ ap (drop (4 * count)) e ∙ drop_all (4 * count) payload rest len,
      live',
    )

answer_write_valid :
    (words : Words) (addr : ℕ) (ws : List ℕ)
    → valid addr (length ws) ≡ true
    → All (λ w. w < 2 ^ 32) ws
    → answer_write words addr (length ws) (pack_words ws) ≡ ok (ok_status, put_words words addr ws)
unfolding answer_write
answer_write_valid words addr ws v h = rw (v, write-pack_words words addr ws h) refl

answer_write_refused :
    (words : Words) (addr count : ℕ) (payload : List ℕ)
    → valid addr count ≡ false
    → answer_write words addr count payload ≡ ok (err_status, words)
unfolding answer_write
answer_write_refused words addr count payload v = rw v refl

answer_read_valid :
    (words : Words) (addr count : ℕ) (pop : Bool)
    → valid addr count ≡ true
    → answer_read words addr count pop ≡ ok_status ++ read words addr count pop
unfolding answer_read
answer_read_valid words addr count pop v = rw v refl

-- A valid write, and a valid read.
pub handle-write :
    (words : Words) (conn : Conn) (addr : ℕ) (ws rest : List ℕ)
    → IsLive conn
    → valid addr (length ws) ≡ true
    → All (λ w. w < 2 ^ 32) ws
    → bytes_of conn ≡ request writ addr (length ws) (pack_words ws ++ rest)
    → (next : Conn) × (handle words conn ≡ ok (ok_status, put_words words addr ws, next))
      × (bytes_of next ≡ rest)
      × IsLive next
handle-write words conn addr ws rest live v fits e =
    let n = length ws in
    let small = valid_small addr n v in
    let (body, first, left, live1) =
      header_lem words conn 87 82 73 84 addr n (pack_words ws ++ rest) live small.0 small.1 e in
    let (next, wrote, left2, live2) =
      dispatch_write words addr n body (pack_words ws) rest live1 (length-pack_words ws) left in
    (
      next,
      first
          ∙ wrote
          ∙ ap (λ r. r >>= λ answer. ok (answer.0, answer.1, next))
              (answer_write_valid words addr ws v fits),
      left2,
      live2,
    )

pub handle-read :
    (words : Words) (conn : Conn) (addr n : ℕ) (rest : List ℕ)
    → IsLive conn
    → valid addr n ≡ true
    → bytes_of conn ≡ request reads addr n rest
    → (next : Conn) × (handle words conn ≡ ok (ok_status ++ read words addr n false, words, next))
      × (bytes_of next ≡ rest)
unfolding dispatch
handle-read words conn addr n rest live v e =
    let small = valid_small addr n v in
    let (next, got, left, live') =
      header_lem words conn 82 69 65 68 addr n rest live small.0 small.1 e in
    (next, got ∙ ap (λ l. ok (l, words, next)) (answer_read_valid words addr n false v), left)

-- A valid write and a read of the same words, one after the other on a stream that is cut in any
-- way: the first round answers OK, the second answers OK and the words that were written, and the
-- stream then stands behind the two requests.
pub read_after_write :
    (words : Words) (conn : Conn) (addr : ℕ) (ws rest : List ℕ)
    → IsLive conn
    → valid addr (length ws) ≡ true
    → All (λ w. w < 2 ^ 32) ws
    → bytes_of conn
      ≡ request writ addr (length ws) (pack_words ws ++ request reads addr (length ws) rest)
    → (words' : Words) × (between after : Conn) × (handle words conn
        ≡ ok (ok_status, words', between))
      × (handle words' between ≡ ok (ok_status ++ pack_words ws, words', after))
      × (bytes_of after ≡ rest)
read_after_write words conn addr ws rest live v fits e =
    let n = length ws in
    let words' = put_words words addr ws in
    let (between, first, left, live1) =
      handle-write words conn addr ws (request reads addr n rest) live v fits e in
    let (after, second, left2) = handle-read words' between addr n rest live1 v left in
    (
      words',
      between,
      after,
      first,
      second ∙ ap (λ l. ok (ok_status ++ l, words', after)) (read-put_words words addr ws),
      left2,
    )

-- A write that `valid` refuses, its payload of the length that the header says: the round answers
-- ERR, the store is unchanged, and the stream stands behind the request.
pub write_refused :
    (words : Words) (conn : Conn) (addr count : ℕ) (payload rest : List ℕ)
    → IsLive conn
    → addr < 2 ^ 32
    → count < 2 ^ 32
    → valid addr count ≡ false
    → length payload ≡ 4 * count
    → bytes_of conn ≡ request writ addr count (payload ++ rest)
    → (next : Conn) × (handle words conn ≡ ok (err_status, words, next)) × (bytes_of next ≡ rest)
write_refused words conn addr count payload rest live ha hc v len e =
    let (body, first, left, live1) =
      header_lem words conn 87 82 73 84 addr count (payload ++ rest) live ha hc e in
    let (next, wrote, left2, live2) =
      dispatch_write words addr count body payload rest live1 len left in
    (
      next,
      first
          ∙ wrote
          ∙ ap (λ r. r >>= λ answer. ok (answer.0, answer.1, next))
              (answer_write_refused words addr count payload v),
      left2,
    )
