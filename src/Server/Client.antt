-- ===== src/Server/Client.antt =====
-- `handle_client` as a whole: rounds until the connection ends.
use mathlib.Core.Path.{subst}
use coil_servo.Base.{
  ℕ, zero, suc, ◌+◌, ◌-◌, ◌*◌, ◌≤◌, ◌<◌, ◌≡◌, refl, ap, ◌∙◌, arith, ◌⊎◌, ◌==◌, leb, ltb, Option,
  none, some, List, [], ◌∷◌, ◌++◌, length, take, drop, length-append, length-take, length-drop,
  Result, ok, err, ◌>>=◌, OnOk, OnOk-bind, OnOk-if,
}
use coil_servo.Server.{
  Words, Conn, hub_base, hub_span, writ, same_bytes, recv_exact, header_word, answer_write,
  dispatch, handle,
}
use coil_servo.Server.Stream.{bytes_of}
use coil_servo.Server.Window.{recv_exact-length, handle_outside}

-- The loop of `handle_client`: the replies, and the store when the connection has ended. The exception
-- that ends it comes from `recv_exact`, before the store is touched.
unfoldable pub serve_rounds : ℕ → Words → Conn → Option (List (List ℕ) × Words)
serve_rounds zero words conn = none
serve_rounds (suc fuel) words conn = elim (handle words conn) [
  | err e ↦ some ([], words)
  | ok (reply, words', next) ↦ elim (serve_rounds fuel words' next) [
    | none ↦ none
    | some (replies, last) ↦ some (reply ∷ replies, last)
  ]
]

recv_exact-keeps :
    (n : ℕ) (buf : List ℕ) (conn : Conn)
    → OnOk
        (λ got. length got.0 + length (bytes_of got.1) ≡ length buf + length (bytes_of conn))
        (recv_exact n buf conn)
unfolding recv_exact
recv_exact-keeps n buf [] =
    OnOk-if (λ (got : List ℕ × Conn). length got.0 + length (bytes_of got.1) ≡ length buf + 0)
      (ltb (length buf) n) _ _ (λ short. tt) (λ enough. omega arith)
recv_exact-keeps n buf (chunk ∷ conn) =
    let total = length buf + length (chunk ++ bytes_of conn) in
    let P : List ℕ × Conn → Type 0 = λ got. length got.0 + length (bytes_of got.1) ≡ total in
    let joined = length-append chunk (bytes_of conn) in
    let k = n - length buf in
    OnOk-if P (ltb (length buf) n) _ _
      (λ short.
        OnOk-if P (length chunk == 0) _ _ (λ closed. tt)
          (λ some_bytes.
            OnOk-if P (leb (length chunk) k) _ _
              (λ whole.
                let same : length (buf ++ chunk) + length (bytes_of conn) ≡ total =
                  omega (arith, length-append buf chunk, joined) in
                subst
                  (λ t.
                    OnOk (λ got. length got.0 + length (bytes_of got.1) ≡ t)
                      (recv_exact n (buf ++ chunk) conn))
                  same (recv_exact-keeps n (buf ++ chunk) conn))
              (λ part. omega (
                arith,
                joined,
                length-append buf (take k chunk),
                length-take k chunk,
                length-append (drop k chunk) (bytes_of conn),
                length-drop k chunk,
              ))))
      (λ enough. omega arith)

-- What is left of the connection after a round.
abbrev Left : ℕ → List ℕ × Words × Conn → Type 0
Left most answer = length (bytes_of answer.2) ≤ most

dispatch-Left :
    (words : Words) (cmd : List ℕ) (addr count : ℕ) (body : Conn)
    → OnOk (Left (length (bytes_of body))) (dispatch words cmd addr count body)
unfolding dispatch
dispatch-Left words cmd addr count body =
    let most = length (bytes_of body) in
    OnOk-if (Left most) (same_bytes cmd writ) _ _
      (λ wanted.
        OnOk-bind (Left most) (recv_exact (4 * count) [] body)
          (λ got. answer_write words addr count got.0 >>= λ answer. ok (answer.0, answer.1, got.1))
          (recv_exact-keeps (4 * count) [] body)
          (λ got kept.
            OnOk-bind (Left most) (answer_write words addr count got.0)
              (λ answer. ok (answer.0, answer.1, got.1)) (any (answer_write words addr count got.0))
              (λ answer u. omega arith)))
      (λ other. omega arith)
  where
    any : (m : Result (List ℕ × Words)) → OnOk (λ answer. Unit {0}) m
    any (ok x) = tt
    any (err e) = tt

-- A round takes its header off the connection.
pub handle-Left :
    (words : Words) (conn : Conn)
    → OnOk (λ answer. length (bytes_of answer.2) + 12 ≤ length (bytes_of conn)) (handle words conn)
unfolding handle
handle-Left words conn =
    OnOk-bind
      (λ (answer : List ℕ × Words × Conn). length (bytes_of answer.2) + 12 ≤ length (bytes_of conn))
      (recv_exact 12 [] conn)
      (λ got.
        dispatch words (take 4 got.0) (header_word (drop 4 got.0)) (header_word (drop 8 got.0))
          got.1)
      (both _ _ (recv_exact 12 [] conn) (recv_exact-length 12 [] conn (omega arith))
        (recv_exact-keeps 12 [] conn))
      (λ got h.
        weaken
          (dispatch words (take 4 got.0) (header_word (drop 4 got.0)) (header_word (drop 8 got.0))
            got.1)
          (length (bytes_of got.1)) (omega arith)
          (dispatch-Left words (take 4 got.0) (header_word (drop 4 got.0))
            (header_word (drop 8 got.0)) got.1))
  where
    both :
        (P Q : List ℕ × Conn → Type 0) (m : Result (List ℕ × Conn))
        → OnOk P m
        → OnOk Q m
        → OnOk (λ x. P x × Q x) m
    both P Q (ok x) p q = (p, q)
    both P Q (err e) p q = tt

    weaken :
        (m : Result (List ℕ × Words × Conn)) (most : ℕ)
        → most + 12 ≤ length (bytes_of conn)
        → OnOk (Left most) m
        → OnOk (λ answer. length (bytes_of answer.2) + 12 ≤ length (bytes_of conn)) m
    weaken (ok x) most le h = omega arith
    weaken (err e) most le h = tt

-- The loop of `handle_client` ends: with more fuel than the connection has bytes it gives its replies,
-- one for each twelve bytes at most, and the store, which outside the window of the hub is unchanged.
pub serve_rounds_ends :
    (fuel : ℕ) (words : Words) (conn : Conn)
    → length (bytes_of conn) < fuel
    → (replies : List (List ℕ)) × (last : Words) × (serve_rounds fuel words conn
        ≡ some (replies, last))
      × (12 * length replies ≤ length (bytes_of conn))
      × ((a : ℕ) → (a < hub_base) ⊎ (hub_base + hub_span ≤ a) → last a ≡ words a)
unfolding serve_rounds
serve_rounds_ends zero words conn h = absurd (omega arith)
serve_rounds_ends (suc fuel) words conn h =
    go (handle words conn) refl (handle-Left words conn) (serve_rounds_ends fuel)
  where
    rest : Result (List ℕ × Words × Conn) → Option (List (List ℕ) × Words)
    rest r = elim r [
      | err e ↦ some ([], words)
      | ok (reply, words', next) ↦ elim (serve_rounds fuel words' next) [
        | none ↦ none
        | some (replies, last) ↦ some (reply ∷ replies, last)
      ]
    ]

    go :
        (r : Result (List ℕ × Words × Conn))
        → handle words conn ≡ r
        → OnOk (λ answer. length (bytes_of answer.2) + 12 ≤ length (bytes_of conn)) r
        → ((w : Words) (c : Conn)
            → length (bytes_of c) < fuel
            → (replies : List (List ℕ)) × (last : Words) × (serve_rounds fuel w c
                ≡ some (replies, last))
              × (12 * length replies ≤ length (bytes_of c))
              × ((a : ℕ) → (a < hub_base) ⊎ (hub_base + hub_span ≤ a) → last a ≡ w a))
        → (replies : List (List ℕ)) × (last : Words) × (rest r ≡ some (replies, last))
          × (12 * length replies ≤ length (bytes_of conn))
          × ((a : ℕ) → (a < hub_base) ⊎ (hub_base + hub_span ≤ a) → last a ≡ words a)
    go (err e) ran left ih = ([], words, refl, omega arith, λ a out. refl)
    go (ok (reply, words', next)) ran left ih =
        let (replies, last, served, few, kept) = ih words' next (omega arith) in
        let add : Option (List (List ℕ) × Words) → Option (List (List ℕ) × Words) =
          λ q. elim q [ none ↦ none | some (rs, l) ↦ some (reply ∷ rs, l) ] in
        (
          reply ∷ replies,
          last,
          ap add served,
          omega arith,
          λ a out. kept a out ∙ handle_outside words words' conn next reply a ran out,
        )
