-- ===== src/Protocol/Wire.antt =====
-- The client's raw calls and the server's rounds together: over a network that may cut both streams
-- anywhere they are a register link, as the object `Board` needs it.
use mathlib.Core.Path.{subst}
use mathlib.Core.List.{append-nil}
use native.Mathlib.Nat.{mod-eq_of_lt}
use coil_servo.Base.{
  ℕ, zero, suc, ◌+◌, ◌*◌, ◌%◌, ◌/◌, ◌≤◌, ◌<◌, ◌^◌, ◌≡◌, ◌≢◌, refl, sym, ap, ◌∙◌, arith, ◌⊎◌, true,
  false, List, [], ◌∷◌, ◌++◌, map, All, length, count_from, Result, ok, err, ◌>>=◌,
}
use coil_servo.Base.Bytes.{le32, pack_words}
use coil_servo.Registers.{cfg_base}
use coil_servo.Link.{Link, cfg_addr}
use coil_servo.Server.{Words, Conn, put, valid, read, read_from, handle, request, writ, ok_status}
use coil_servo.Server.Stream.{bytes_of, IsLive}
use coil_servo.Server.Store.{put_words, put_words_below, read-put_words}
use coil_servo.Server.Rounds.{handle-write, handle-read}
use coil_servo.Protocol.{
  masked, send_write, send_read, write_words, read_words, write_words_ok, read_words_ok,
  map-masked_fits, length-map-masked, unpack_words, unpack-pack_words,
}

-- How the network cuts what is sent: nothing is lost, and no segment is empty.
pub record Network : Type 0 where
  pub cut : List ℕ → Conn
  pub joined : (bytes : List ℕ) → bytes_of (cut bytes) ≡ bytes
  pub live : (bytes : List ℕ) → IsLive (cut bytes)

map-masked : (ws : List ℕ) → All (λ w. w < 2 ^ 32) ws → map masked ws ≡ ws
map-masked [] h = refl
map-masked (w ∷ ws) (h, hs) =
    ap (λ v. v ∷ map masked ws) (mod-eq_of_lt h) ∙ ap (λ l. w ∷ l) (map-masked ws hs)

le32-masked : (w : ℕ) → le32 w ≡ le32 (masked w)
le32-masked w =
    let a : w % 256 ≡ masked w % 256 = omega arith in
    let b : w / 256 % 256 ≡ masked w / 256 % 256 = omega arith in
    let c : w / 65536 % 256 ≡ masked w / 65536 % 256 = omega arith in
    let d : w / 16777216 % 256 ≡ masked w / 16777216 % 256 = omega arith in
    λ i. a i ∷ b i ∷ c i ∷ d i ∷ []

-- The words of a run of addresses, as 32-bit words.
abbrev pub words_from : Words → ℕ → ℕ → ℕ → List ℕ
words_from words addr k n = map (λ j. masked (words (addr + 4 * j))) (count_from k n)

read_from-words_from :
    (words : Words) (addr k n : ℕ)
    → read_from words addr false k n ≡ pack_words (words_from words addr k n)
unfolding read_from
read_from-words_from words addr k zero = refl
read_from-words_from words addr k (suc n) =
    ap (λ l. l ++ read_from words addr false (k + 1) n) (le32-masked (words (addr + 4 * k)))
    ∙ ap (λ l. le32 (masked (words (addr + 4 * k))) ++ l)
        (read_from-words_from words addr (k + 1) n)

words_from-fits : (words : Words) (addr k n : ℕ) → All (λ w. w < 2 ^ 32) (words_from words addr k n)
words_from-fits words addr k zero = tt
words_from-fits words addr k (suc n) = (omega arith, words_from-fits words addr (k + 1) n)

length-words_from : (words : Words) (addr k n : ℕ) → length (words_from words addr k n) ≡ n
length-words_from words addr k zero = refl
length-words_from words addr k (suc n) = omega (arith, length-words_from words addr (k + 1) n)

words_from-put_words :
    (words : Words) (addr : ℕ) (ws : List ℕ)
    → All (λ w. w < 2 ^ 32) ws
    → words_from (put_words words addr ws) addr 0 (length ws) ≡ ws
unfolding read
words_from-put_words words addr ws fits =
    let stored = put_words words addr ws in
    let run = words_from stored addr 0 (length ws) in
    sym (unpack-pack_words run (words_from-fits stored addr 0 (length ws)))
    ∙ ap unpack_words
        (sym (read_from-words_from stored addr 0 (length ws)) ∙ read-put_words words addr ws)
    ∙ unpack-pack_words ws fits

module _ (N : Network) where
  open N use {cut, joined, live}

  -- `Board.write_words` and `Board.read_words` with the round of the server between what is sent and
  -- what is received.
  unfoldable pub wire_write : Words → ℕ → List ℕ → Result Words
  wire_write store addr words = do
    (reply, store', next) ← handle store (cut (send_write addr words))
    (u, more) ← write_words words (cut reply)
    ok store'

  unfoldable pub wire_read : Words → ℕ → ℕ → Result (List ℕ)
  wire_read store addr count = do
    (reply, store', next) ← handle store (cut (send_read addr count))
    (words, more) ← read_words count (cut reply)
    ok words

  pub wire_write_lem :
      (store : Words) (addr : ℕ) (ws : List ℕ)
      → valid addr (length ws) ≡ true
      → wire_write store addr ws ≡ ok (put_words store addr (map masked ws))
  unfolding wire_write send_write
  wire_write_lem store addr ws v =
      let same = length-map-masked ws in
      let bytes = pack_words (map masked ws) in
      let (next, served, left, alive) =
        handle-write store (cut (send_write addr ws)) addr (map masked ws) []
          (live (send_write addr ws)) (ap (valid addr) same ∙ v) (map-masked_fits ws)
          (joined (send_write addr ws)
            ∙ ap (λ (n : ℕ). request writ addr n bytes) (sym same)
            ∙ ap (request writ addr (length (map masked ws))) (sym (append-nil bytes))) in
      let (more, got, rest, alive') =
        write_words_ok ws [] (cut ok_status) (live ok_status) (joined ok_status) in
      let received : Result (List ℕ × Words × Conn) → Result Words =
        λ r. r >>= λ s. write_words ws (cut s.0) >>= λ q. ok s.1 in
      let stored : Result (Unit {0} × Conn) → Result Words =
        λ r. r >>= λ q. ok (put_words store addr (map masked ws)) in
      ap received served ∙ ap stored got

  pub wire_read_lem :
      (store : Words) (addr n : ℕ)
      → valid addr n ≡ true
      → wire_read store addr n ≡ ok (words_from store addr 0 n)
  unfolding wire_read send_read read
  wire_read_lem store addr n v =
      let ws = words_from store addr 0 n in
      let (next, served, left) =
        handle-read store (cut (send_read addr n)) addr n [] (live (send_read addr n)) v
          (joined (send_read addr n)) in
      let bytes : ok_status ++ read store addr n false ≡ ok_status ++ pack_words ws =
        ap (λ l. ok_status ++ l) (read_from-words_from store addr 0 n) in
      let reply = ok_status ++ pack_words ws in
      let (more, got, rest) =
        read_words_ok ws [] (cut reply) (live reply) (words_from-fits store addr 0 n)
          (joined reply ∙ ap (λ l. ok_status ++ l) (sym (append-nil (pack_words ws)))) in
      let received : Result (List ℕ × Words × Conn) → Result (List ℕ) =
        λ r. r >>= λ s. read_words n (cut s.0) >>= λ q. ok q.0 in
      let taken : Result (List ℕ × Conn) → Result (List ℕ) = λ r. r >>= λ q. ok q.0 in
      ap received (served ∙ ap (λ l. ok (l, store, next)) bytes)
      ∙ ap taken
          (ap (λ (k : ℕ). read_words k (cut reply)) (sym (length-words_from store addr 0 n)) ∙ got)

  -- The two calls of the client against the server, whatever the network cuts the streams into: a
  -- valid write gives the store in which the run of addresses holds the words modulo 2 ^ 32, a valid
  -- read gives the words of its run, and a write changes no address outside its run.
  pub wire_refines :
      (store : Words) (addr : ℕ) (ws : List ℕ)
      → valid addr (length ws) ≡ true
      → (store' : Words) × (wire_write store addr ws ≡ ok store')
        × (wire_read store' addr (length ws) ≡ ok (map masked ws))
        × ((a : ℕ) → (a < addr) ⊎ (addr + 4 * length ws ≤ a) → store' a ≡ store a)
        × ((a n : ℕ) → valid a n ≡ true → wire_read store' a n ≡ ok (words_from store' a 0 n))
  wire_refines store addr ws v =
      let ws' = map masked ws in
      let store' = put_words store addr ws' in
      let same = length-map-masked ws in
      let kept : words_from store' addr 0 (length ws) ≡ ws' =
        ap (words_from store' addr 0) (sym same)
        ∙ words_from-put_words store addr ws' (map-masked_fits ws) in
      (
        store',
        wire_write_lem store addr ws v,
        wire_read_lem store' addr (length ws) v ∙ ap (λ l. ok l) kept,
        λ a out.
            put_words_below store addr ws' a
              (subst (λ n. (a < addr) ⊎ (addr + 4 * n ≤ a)) (sym same) out),
        λ a n v'. wire_read_lem store' a n v',
      )

  pub word_valid : (k : ℕ) → k < 16 → valid (cfg_addr k) 1 ≡ true
  unfolding valid
  word_valid k h = ground arith

  pub block_valid : valid cfg_base 16 ≡ true
  unfolding valid
  block_valid = refl

  pub wire_written :
      (m : Words) (k w : ℕ) → k < 16 → w < 2 ^ 32 → masked (put m (cfg_addr k) w (cfg_addr k)) ≡ w
  wire_written m k w hk hw = ground (arith, mod-eq_of_lt hw)

  pub wire_unwritten :
      (m : Words) (k w j : ℕ)
      → k < 16
      → w < 2 ^ 32
      → j < 16
      → j ≢ k
      → masked (put m (cfg_addr k) w (cfg_addr j)) ≡ masked (m (cfg_addr j))
  wire_unwritten m k w j hk hw hj ne = ground arith

  -- The store after a write, which a refused one leaves as it was.
  abbrev landed : Words → Result Words → Result (Unit {0}) × Words
  landed store (ok store') = (ok tt, store')
  landed store (err e) = (err e, store)

  -- The register link that the client and the server make together.
  abbrev pub server_link : Link
  server_link = record {
    wire = record {
      Memory = Words;
      peek = λ m a. masked (m a);
      write_words = λ m a ws. landed m (wire_write m a ws);
      read_words = wire_read;
    };
    after_write = λ m k w. put m (cfg_addr k) w;
    write_goes_through = λ m k w hk hw. ap (landed m) (
        wire_write_lem m (cfg_addr k) (w ∷ []) (word_valid k hk)
        ∙ ap (λ v. ok (put m (cfg_addr k) v)) (mod-eq_of_lt hw));
    peek_written = wire_written;
    peek_unwritten = wire_unwritten;
    read_block = λ m. wire_read_lem m cfg_base 16 block_valid;
    peek_fits = λ m k hk. omega arith;
  }
