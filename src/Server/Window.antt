-- ===== src/Server/Window.antt =====
-- The server stays inside its register window, whatever a client sends.
use mathlib.Core.Path.{subst}
use coil_servo.Base.{
  ℕ, ◌+◌, ◌-◌, ◌*◌, ◌≤◌, ◌<◌, ◌≡◌, refl, arith, ◌⊎◌, ◌==◌, leb, ltb, List, [], ◌∷◌, ◌++◌, length,
  take, drop, length-append, length-take, ok, ◌>>=◌, OnOk, OnOk-bind, OnOk-if, OnOk_value,
}
use coil_servo.Base.Bytes.{word_of}
use coil_servo.Server.{
  Words, Conn, put, hub_base, hub_span, valid, same_bytes, writ, ok_status, recv_exact, header_word,
  write, answer_write, dispatch, handle,
}

pub recv_exact-length :
    (n : ℕ) (buf : List ℕ) (conn : Conn)
    → length buf ≤ n
    → OnOk (λ got. length got.0 ≡ n) (recv_exact n buf conn)
unfolding recv_exact
recv_exact-length n buf [] h =
    OnOk-if (λ (got : List ℕ × Conn). length got.0 ≡ n) (ltb (length buf) n) _ _ (λ short. tt)
      (λ enough. ground arith)
recv_exact-length n buf (chunk ∷ conn) h =
    let P : List ℕ × Conn → Type 0 = λ got. length got.0 ≡ n in
    OnOk-if P (ltb (length buf) n) _ _
      (λ short.
        OnOk-if P (length chunk == 0) _ _ (λ closed. tt)
          (λ some_bytes.
            OnOk-if P (leb (length chunk) (n - length buf)) _ _
              (λ whole.
                recv_exact-length n (buf ++ chunk) conn (ground (arith, length-append buf chunk)))
              (λ part. ground (
                arith,
                length-append buf (take (n - length buf) chunk),
                length-take (n - length buf) chunk,
              ))))
      (λ enough. ground arith)

write_outside :
    (words : Words) (addr a : ℕ) (bytes : List ℕ)
    → (a < addr) ⊎ (addr + length bytes ≤ a)
    → OnOk (λ (w : Words). w a ≡ words a) (write words addr bytes)
unfolding write
write_outside words addr a [] h = refl
write_outside words addr a (p ∷ []) h = tt
write_outside words addr a (p ∷ q ∷ []) h = tt
write_outside words addr a (p ∷ q ∷ r ∷ []) h = tt
write_outside words addr a (p ∷ q ∷ r ∷ s ∷ bytes) h =
    let same : put words addr (word_of p q r s) a ≡ words a = ground arith in
    subst
      (λ v.
        OnOk (λ (w : Words). w a ≡ v) (write (put words addr (word_of p q r s)) (addr + 4) bytes))
      same (write_outside (put words addr (word_of p q r s)) (addr + 4) a bytes (omega arith))

abbrev pub IsOutside : ℕ → Type 0
IsOutside a = (a < hub_base) ⊎ (hub_base + hub_span ≤ a)

answer_write_outside :
    (words : Words) (addr count a : ℕ) (bytes : List ℕ)
    → length bytes ≡ 4 * count
    → IsOutside a
    → OnOk (λ (answer : List ℕ × Words). answer.1 a ≡ words a) (answer_write words addr count bytes)
unfolding answer_write valid
answer_write_outside words addr count a bytes len out =
    let P : List ℕ × Words → Type 0 = λ answer. answer.1 a ≡ words a in
    OnOk-if P (valid addr count) _ _
      (λ fine.
        OnOk-bind P (write words addr bytes) (λ w. ok (ok_status, w))
          (write_outside words addr a bytes (ground arith)) (λ w h. h))
      (λ bad. refl)

dispatch_outside :
    (words : Words) (cmd : List ℕ) (addr count a : ℕ) (body : Conn)
    → IsOutside a
    → OnOk
        (λ (answer : List ℕ × Words × Conn). answer.1 a ≡ words a)
        (dispatch words cmd addr count body)
unfolding dispatch
dispatch_outside words cmd addr count a body out =
    let P : List ℕ × Words × Conn → Type 0 = λ answer. answer.1 a ≡ words a in
    OnOk-if P (same_bytes cmd writ) _ _
      (λ wanted.
        OnOk-bind P (recv_exact (4 * count) [] body)
          (λ got. answer_write words addr count got.0 >>= λ answer. ok (answer.0, answer.1, got.1))
          (recv_exact-length (4 * count) [] body (omega arith))
          (λ got len.
            OnOk-bind P (answer_write words addr count got.0)
              (λ answer. ok (answer.0, answer.1, got.1))
              (answer_write_outside words addr count a got.0 len out) (λ answer h. h)))
      (λ other. refl)

-- Whatever comes over a connection, in whatever segments: a round that ends has changed no word
-- outside the window of the hub.
pub handle_outside :
    (words words' : Words) (conn next : Conn) (reply : List ℕ) (a : ℕ)
    → handle words conn ≡ ok (reply, words', next)
    → (a < hub_base) ⊎ (hub_base + hub_span ≤ a)
    → words' a ≡ words a
unfolding handle
handle_outside words words' conn next reply a e out =
    OnOk_value (λ (answer : List ℕ × Words × Conn). answer.1 a ≡ words a) (handle words conn)
      (reply, words', next)
      (OnOk-bind (λ (answer : List ℕ × Words × Conn). answer.1 a ≡ words a) (recv_exact 12 [] conn)
        (λ got.
          dispatch words (take 4 got.0) (header_word (drop 4 got.0)) (header_word (drop 8 got.0))
            got.1)
        (recv_exact-length 12 [] conn (omega arith))
        (λ got len.
          dispatch_outside words (take 4 got.0) (header_word (drop 4 got.0))
            (header_word (drop 8 got.0)) a got.1 out))
      e
