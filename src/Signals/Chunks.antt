-- ===== src/Signals/Chunks.antt =====
-- The lists of chunks that wait, and the loops of read() and write() over one chunk.
use sem.Base.{
  ℕ, ◌+◌, ◌≤◌, ◌≡◌, ◌≢◌, List, [], ◌∷◌, ◌++◌, ◌==◌, if◌then◌else◌, length, get_or, take, zero, suc,
  ◌<◌, refl, sym, ap, ◌∙◌, true, false, Option, some, append-nil, append_assoc, arith, ==_refl, set,
  drop, get_or-set_ne, inl, inr, none, ==_iff, Bool-cases, ◌-◌, min, subst, ◌&&◌, ltb, length-drop,
  take-append-drop,
}
use sem.Text.{Bytes}
use sem.Signals.Handlers.{SharedData, read_chunk, chunk_size, max_attempts, write_out}
use sem.Signals.System.{counting}

abbrev pub occurs : ℕ → List ℕ → ℕ
occurs i [] = 0
occurs i (j ∷ js) = (if j == i then 1 else 0) + occurs i js

-- What the chunks of a queue hold, in its order.
abbrev pub pending : List Bytes → List ℕ → List ℕ → Bytes
pending buffers sizes [] = []
pending buffers sizes (i ∷ is) =
    take (get_or sizes i 0) (get_or buffers i []) ++ pending buffers sizes is

pub pending-append :
    (bs : List Bytes) (ss js : List ℕ) (i : ℕ)
    → pending bs ss (js ++ i ∷ []) ≡ pending bs ss js ++ take (get_or ss i 0) (get_or bs i [])
pending-append bs ss [] i = append-nil _
pending-append bs ss (j ∷ js) i =
    ap (λ b. take (get_or ss j 0) (get_or bs j []) ++ b) (pending-append bs ss js i)
    ∙ sym (append_assoc _ (pending bs ss js) _)

pub pending-set :
    (bs : List Bytes) (ss js : List ℕ) (i n : ℕ) (v : Bytes)
    → occurs i js ≡ 0
    → pending (set bs i v) (set ss i n) js ≡ pending bs ss js
pending-set bs ss [] i n v h = refl
pending-set bs ss (j ∷ js) i n v h =
    let other : i ≢ j = λ e. ground (arith, ==_refl j) in
    rw (
      get_or-set_ne ss i j 0 n other,
      get_or-set_ne bs i j [] v other,
      pending-set bs ss js i n v (ground arith),
    )

pub occurs-append :
    (i j : ℕ) (js : List ℕ) → occurs i (js ++ j ∷ []) ≡ occurs i js + occurs i (j ∷ [])
occurs-append i j [] = omega arith
occurs-append i j (k ∷ js) = omega (arith, occurs-append i j js)

pub occurs_self : (i : ℕ) (js : List ℕ) → 1 ≤ occurs i (i ∷ js)
occurs_self i js = rw (==_refl i) (omega arith)

pub nil_of_length : (s : Bytes) → length s ≡ 0 → s ≡ []
nil_of_length [] h = refl
nil_of_length (c ∷ s) h = absurd (omega arith)

pub some-eq : {a b : Bytes} → some a ≡ some b → a ≡ b
some-eq e = cc

pub false-ne-true : false ≡ true → ⊥
false-ne-true e = cc

pub none-ne-some : {b : Bytes} → none ≡ some b → ⊥
none-ne-some e = cc

pub take-drop-length : (n : ℕ) (s : Bytes) → take n s ++ drop (length (take n s)) s ≡ s
take-drop-length zero s = refl
take-drop-length (suc n) [] = refl
take-drop-length (suc n) (c ∷ s) = ap (◌∷◌ c) (take-drop-length n s)

-- A read gives the front of what is left of the file.
pub read_chunk-prefix :
    (fuel : ℕ) (reads : ℕ → Option ℕ) (s : SharedData) (got : Bytes) (n : ℕ)
    → read_chunk fuel reads s ≡ (some got, n)
    → got ++ drop (length got) s.input ≡ s.input
unfolding read_chunk
read_chunk-prefix zero reads s got n e = cc
read_chunk-prefix (suc fuel) reads s got n e =
    read (λ q. read_chunk-prefix fuel reads (record s { attempts = suc s.attempts }) got n q)
      (reads s.attempts) refl
  where
    read :
        (read_chunk fuel reads (record s { attempts = suc s.attempts }) ≡ (some got, n)
          → got ++ drop (length got) s.input ≡ s.input)
        → (o : Option ℕ) → reads s.attempts ≡ o
        → got ++ drop (length got) s.input ≡ s.input
    read ih none h =
        absurd (none-ne-some (ap (λ (r : Option Bytes × ℕ). r.0) (rw (h, read_chunk) at e)))
    read ih (some k) h =
        let first : Bytes = take (min k chunk_size) s.input in
        elim (Bool-cases (
          length first == 0
          && ltb s.bytes_read s.file_size
          && ltb (suc s.attempts) (max_attempts - 1))) [
            | inl again ↦ ih (rw (h, read_chunk, again) at e)
            | inr stop ↦
                let same : first ≡ got =
                  some-eq (ap (λ (r : Option Bytes × ℕ). r.0) (rw (h, read_chunk, stop) at e)) in
                subst (λ b. b ++ drop (length b) s.input ≡ s.input) same
                  (take-drop-length (min k chunk_size) s.input)
          ]

pub write_out-all :
    (fuel : ℕ) (writes : ℕ → Option ℕ) (turn : ℕ) (rest : Bytes)
    → length rest < fuel
    → (write_out fuel writes turn rest).1 ≡ true
    → (write_out fuel writes turn rest).0 ≡ rest
unfolding write_out
write_out-all zero writes turn rest h e = absurd (omega arith)
write_out-all (suc fuel) writes turn [] h e = refl
write_out-all (suc fuel) writes turn (c ∷ rest) h e =
    write
      (λ k.
        write_out-all fuel writes (suc turn) (drop (min (suc k) (suc (length rest))) (c ∷ rest)))
      (writes turn) refl
  where
    left : ℕ → Bytes
    left k = drop (min (suc k) (suc (length rest))) (c ∷ rest)

    write :
        ((k : ℕ)
          → length (left k) < fuel
          → (write_out fuel writes (suc turn) (left k)).1 ≡ true
          → (write_out fuel writes (suc turn) (left k)).0 ≡ left k)
        → (o : Option ℕ) → writes turn ≡ o
        → (write_out (suc fuel) writes turn (c ∷ rest)).0 ≡ c ∷ rest
    write ih none w = absurd (false-ne-true (rw (w, write_out) at e))
    write ih (some k) w =
        let shorter : length (left k) < fuel =
          omega (arith, length-drop (min (suc k) (suc (length rest))) (c ∷ rest)) in
        rw (write_out, w, ih k shorter (rw (w, write_out) at e))
          (take-append-drop (min (suc k) (suc (length rest))) (c ∷ rest))

pub occurs-counting_below : (i j n : ℕ) → i < j → occurs i (counting j n) ≡ 0
occurs-counting_below i j zero h = refl
occurs-counting_below i j (suc n) h =
    let later : occurs i (counting (suc j) n) ≡ 0 =
      occurs-counting_below i (suc j) n (omega arith) in
    ground (arith, ==_iff j i)

pub occurs-counting : (i j n : ℕ) → occurs i (counting j n) ≤ 1
occurs-counting i j zero = omega arith
occurs-counting i j (suc n) = elim (Bool-cases (j == i)) [
  | inl same ↦
      let at : j ≡ i = (==_iff j i).0 same in
      let none_later : occurs i (counting (suc j) n) ≡ 0 =
        occurs-counting_below i (suc j) n (omega arith) in
      rw same (omega arith)
  | inr other ↦ rw other (omega (arith, occurs-counting i (suc j) n))
]
