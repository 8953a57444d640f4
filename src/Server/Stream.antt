-- ===== src/Server/Stream.antt =====
-- `recv_exact` on a stream that arrives in segments of any size.
use mathlib.Core.List.{append-nil}
use mathlib.Core.Path.{subst}
use coil_servo.Base.{
  ℕ, ◌+◌, ◌-◌, ◌≤◌, ◌<◌, ◌≡◌, refl, sym, ap, ◌∙◌, arith, inl, inr, Bool-cases, leb, List, [], ◌∷◌,
  ◌++◌, All, take, drop, take-append_le, drop-append_le, take-append_gt, drop-append_gt, length,
  length-append, length-drop, ok, err, Error,
}
use coil_servo.Server.{Conn, recv_exact}

-- All the bytes that are still to come.
abbrev pub bytes_of : Conn → List ℕ
bytes_of [] = []
bytes_of (chunk ∷ conn) = chunk ++ bytes_of conn

-- No segment is empty: `recv` gives no bytes only at the end.
abbrev pub IsLive : Conn → Type 0
IsLive = All (λ chunk. 0 < length chunk)

recv_enough :
    (n : ℕ) (buf : List ℕ) (conn : Conn) → n ≤ length buf → recv_exact n buf conn ≡ ok (buf, conn)
unfolding recv_exact
recv_enough n buf [] h = ground arith
recv_enough n buf (chunk ∷ conn) h = ground arith

recv_next :
    (n : ℕ) (buf chunk : List ℕ) (conn : Conn)
    → length buf < n
    → 0 < length chunk
    → length chunk ≤ n - length buf
    → recv_exact n buf (chunk ∷ conn) ≡ recv_exact n (buf ++ chunk) conn
unfolding recv_exact
recv_next n buf chunk conn h live fits = ground arith

recv_last :
    (n : ℕ) (buf chunk : List ℕ) (conn : Conn)
    → length buf < n
    → n - length buf < length chunk
    → recv_exact n buf (chunk ∷ conn)
      ≡ ok (buf ++ take (n - length buf) chunk, drop (n - length buf) chunk ∷ conn)
unfolding recv_exact
recv_last n buf chunk conn h large = ground arith

append_assoc : (xs ys zs : List ℕ) → (xs ++ ys) ++ zs ≡ xs ++ (ys ++ zs)
append_assoc [] ys zs = refl
append_assoc (x ∷ xs) ys zs = ap (λ l. x ∷ l) (append_assoc xs ys zs)

take_zero : (k : ℕ) (xs : List ℕ) → k ≡ 0 → take k xs ≡ []
take_zero k xs h = ap (λ (j : ℕ). take j xs) h

drop_zero : (k : ℕ) (xs : List ℕ) → k ≡ 0 → drop k xs ≡ xs
drop_zero k xs h = ap (λ (j : ℕ). drop j xs) h

recv_exact-take_from :
    (n : ℕ) (buf : List ℕ) (conn : Conn)
    → IsLive conn
    → length buf ≤ n
    → n ≤ length buf + length (bytes_of conn)
    → (next : Conn) × (recv_exact n buf conn
        ≡ ok (buf ++ take (n - length buf) (bytes_of conn), next))
      × (bytes_of next ≡ drop (n - length buf) (bytes_of conn))
      × IsLive next
recv_exact-take_from n buf [] live small enough =
    let done : n - length buf ≡ 0 = omega arith in
    (
      [],
      recv_enough n buf [] (omega arith)
          ∙ ap (λ l. ok (l, []))
              (sym (append-nil buf)
                ∙ ap (λ l. buf ++ l) (sym (take_zero (n - length buf) [] done))),
      sym (drop_zero (n - length buf) [] done),
      tt,
    )
recv_exact-take_from n buf (chunk ∷ conn) (some_bytes, live) small enough =
    let k = n - length buf in
    elim (Bool-cases (leb n (length buf))) [
      | inl full ↦
          let done : n - length buf ≡ 0 = ground arith in
          (
            chunk ∷ conn,
            recv_enough n buf (chunk ∷ conn) (ground arith)
                ∙ ap (λ l. ok (l, chunk ∷ conn))
                    (sym (append-nil buf)
                      ∙ ap (λ l. buf ++ l) (sym (take_zero k (chunk ++ bytes_of conn) done))),
            sym (drop_zero k (chunk ++ bytes_of conn) done),
            (some_bytes, live),
          )
      | inr missing ↦ elim (Bool-cases (leb (length chunk) k)) [
        | inl whole ↦
            let (next, ran, left, live') =
              recv_exact-take_from n (buf ++ chunk) conn live
                (ground (arith, length-append buf chunk))
                (omega (arith, length-append buf chunk, length-append chunk (bytes_of conn))) in
            let fewer : n - length (buf ++ chunk) ≡ k - length chunk =
              omega (arith, length-append buf chunk) in
            (
              next,
              recv_next n buf chunk conn (ground arith) some_bytes (ground arith)
                  ∙ ran
                  ∙ ap (λ l. ok (l, next))
                      (append_assoc buf chunk (take (n - length (buf ++ chunk)) (bytes_of conn))
                        ∙ ap (λ l. buf ++ l)
                            (ap (λ (j : ℕ). chunk ++ take j (bytes_of conn)) fewer
                              ∙ sym (take-append_le k chunk (bytes_of conn) (ground arith)))),
              left
                  ∙ ap (λ (j : ℕ). drop j (bytes_of conn)) fewer
                  ∙ sym (drop-append_le k chunk (bytes_of conn) (ground arith)),
              live',
            )
        | inr part ↦ (
          drop k chunk ∷ conn,
          recv_last n buf chunk conn (ground arith) (ground arith)
              ∙ ap (λ l. ok (buf ++ l, drop k chunk ∷ conn))
                  (sym (take-append_gt k chunk (bytes_of conn) (ground arith))),
          sym (drop-append_gt k chunk (bytes_of conn) (ground arith)),
          (ground (arith, length-drop k chunk), live),
        )
      ]
    ]

-- A stream of at least `n` bytes, in segments of any size of one byte or more: `recv_exact` raises
-- nothing and gives the first `n` bytes, and the rest is still to come, in the same order.
pub recv_exact-take :
    (n : ℕ) (conn : Conn)
    → IsLive conn
    → n ≤ length (bytes_of conn)
    → (next : Conn) × (recv_exact n [] conn ≡ ok (take n (bytes_of conn), next))
      × (bytes_of next ≡ drop n (bytes_of conn))
      × IsLive next
recv_exact-take n conn live enough =
    let all : n - 0 ≡ n = omega arith in
    subst
      (λ k.
        (next : Conn) × (recv_exact n [] conn ≡ ok (take k (bytes_of conn), next))
        × (bytes_of next ≡ drop k (bytes_of conn))
        × IsLive next)
      all (recv_exact-take_from n [] conn live (omega arith) (omega arith))

recv_short_from :
    (n : ℕ) (buf : List ℕ) (conn : Conn)
    → length buf + length (bytes_of conn) < n
    → recv_exact n buf conn ≡ err Error.connection_error
unfolding recv_exact
recv_short_from n buf [] h = ground arith
recv_short_from n buf (chunk ∷ conn) h = ground (
  arith,
  length-append chunk (bytes_of conn),
  length-append buf chunk,
  recv_short_from n (buf ++ chunk) conn,
)

-- A stream that ends before `n` bytes raises ConnectionError.
recv_exact_refuses :
    (n : ℕ) (conn : Conn)
    → length (bytes_of conn) < n
    → recv_exact n [] conn ≡ err Error.connection_error
recv_exact_refuses n conn h = recv_short_from n [] conn (omega arith)
