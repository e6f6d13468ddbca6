-- ===== src/Rawtx/Buffers.antt =====
-- The readers of a pair of buffers against the same on the bytes that remain in them, through the steps that
-- are made of them.
use app_bitcoin_new.Prelude.{
  ℕ, ◌+◌, ◌≡◌, refl, ◌∙◌, List, [], Option, none, some, Bool, true, false, not, ltb, leb, ◌||◌,
  if◌then◌else◌, Bool-cases, inl, inr, put_at, replicate,
}
use mathlib.Core.Option
use app_bitcoin_new.Bytes.{at, read_u64_le}
use app_bitcoin_new.Buffer.{Buffer, buffer_read_bytes, buffer_seek_cur, add_size, sub_size}
use app_bitcoin_new.Buffer.Stream.{take_bytes}
use app_bitcoin_new.Parser.{
  Dbuffer, dbuffer_can_read, read_part, dbuffer_read_bytes, dbuffer_read_varint, peek_first,
  varint_len, bytes_or_same, StepResult, error, need_more, complete, endless, ParsingStep,
  next_step,
}
use app_bitcoin_new.Parser.Stream.{
  IsValidPair, stream, ReadOf, dbuffer_read_bytes-ReadOf, dbuffer_read_bytes-take_bytes,
}
use app_bitcoin_new.Parser.Varint.{take_varint, dbuffer_read_varint-take_varint}

-- The buffer's region stays in its place, with its bytes.
seek_cur-ptr : (b : Buffer) (n : ℕ) → (buffer_seek_cur b n).1.ptr ≡ b.ptr
unfolding buffer_seek_cur
seek_cur-ptr b n = go (ltb (add_size b.offset n) b.offset || ltb b.size (add_size b.offset n))
  where
    go :
        (c : Bool)
        → (if◌then◌else◌ {A = Bool × Buffer} c
            (false, b)
            (true, record b { offset = add_size b.offset n })).1.ptr
          ≡ b.ptr
    go true = refl
    go false = refl

KeepsRegion : Buffer → Option (List ℕ × Buffer) → Type 0
KeepsRegion b none = Unit {0}
KeepsRegion b (some (out, b')) = b'.ptr ≡ b.ptr

read_bytes-KeepsRegion : (b : Buffer) (n : ℕ) → KeepsRegion b (buffer_read_bytes b n)
unfolding buffer_read_bytes KeepsRegion
read_bytes-KeepsRegion b n = elim (Bool-cases (ltb (sub_size b.size b.offset) n)) [
  | inl short ↦ rw (short, KeepsRegion) tt
  | inr enough ↦ rw (enough, KeepsRegion) (seek_cur-ptr b n)
]

read_part-ptr : (b : Buffer) (n : ℕ) → (read_part b n).1.ptr ≡ b.ptr
unfolding read_part KeepsRegion
read_part-ptr b n = go (ltb 0 n) (buffer_read_bytes b n) (read_bytes-KeepsRegion b n)
  where
    go :
        (c : Bool) (o : Option (List ℕ × Buffer))
        → KeepsRegion b o
        → (if◌then◌else◌ {A = List ℕ × Buffer} c
            (elim o [ none ↦ ([], b) | some r ↦ r ])
            ([], b)).1.ptr
          ≡ b.ptr
    go false o k = refl
    go true none k = refl
    go true (some (out, b')) k = k

module _ (ptr : List ℕ) where
  pub record IsPair (d : Dbuffer) : Type 0 where
    pub valid : IsValidPair d
    pub same : d.first.ptr ≡ ptr

  unfoldable pub Kept : {X : Type 0} → Option (X × Dbuffer) → Type 0
  Kept none = Unit {0}
  Kept (some (x, d)) = IsPair d

  dbuffer_read_bytes-Kept : (d : Dbuffer) (n : ℕ) → IsPair d → Kept (dbuffer_read_bytes d n)
  unfolding dbuffer_read_bytes ReadOf Kept
  dbuffer_read_bytes-Kept d n p =
      let length0 = sub_size d.first.size d.first.offset in
      let length1 = sub_size d.second.size d.second.offset in
      let n0 = if leb n length0 then n else length0 in
      let r = dbuffer_read_bytes-ReadOf d n p.valid in
      elim (Bool-cases (ltb (add_size length0 length1) n)) [
        | inl short ↦ rw (short, Kept) tt
        | inr enough ↦
            let (fits, out, rest, valid) = rw (enough, ReadOf) at r in
            rw (enough, Kept) (record { valid = valid; same = read_part-ptr d.first n0 ∙ p.same })
      ]

  bytes_or_same-Kept :
      (d : Dbuffer) (o : Option (List ℕ × Dbuffer))
      → IsPair d
      → Kept o
      → IsPair (bytes_or_same d o).1
  unfolding bytes_or_same Kept
  bytes_or_same-Kept d none p k = p
  bytes_or_same-Kept d (some (out, d')) p k = k

  -- Reading bytes whose presence was tested.
  pub bytes_or_same-IsPair :
      (d : Dbuffer) (n : ℕ) → IsPair d → IsPair (bytes_or_same d (dbuffer_read_bytes d n)).1
  bytes_or_same-IsPair d n p =
      bytes_or_same-Kept d (dbuffer_read_bytes d n) p (dbuffer_read_bytes-Kept d n p)

  Kept-if :
      {X : Type 0} (c : Bool) (x y : Option (X × Dbuffer))
      → Kept x
      → Kept y
      → Kept (if c then x else y)
  Kept-if true x y kx ky = kx
  Kept-if false x y kx ky = ky

  none-Kept : (X : Type 0) → Kept {X = X} none
  unfolding Kept
  none-Kept X = tt

  some-Kept : {X : Type 0} (x : X) (d : Dbuffer) → IsPair d → Kept (some (x, d))
  unfolding Kept
  some-Kept x d p = p

  dbuffer_read_varint-Kept : (d : Dbuffer) → IsPair d → Kept (dbuffer_read_varint d)
  unfolding dbuffer_read_varint
  dbuffer_read_varint-Kept d p =
      let d1 = (bytes_or_same d (dbuffer_read_bytes d 1)).1 in
      let k1 = bytes_or_same-IsPair d 1 p in
      let (bytes, d2) = bytes_or_same d1 (dbuffer_read_bytes d1 (varint_len (peek_first d))) in
      let skipped = (bytes_or_same d (dbuffer_read_bytes d 1)).0 in
      let k2 = bytes_or_same-IsPair d1 (varint_len (peek_first d)) k1 in
      Kept-if (not (dbuffer_can_read d 1)) _ _ (none-Kept ℕ) (
        Kept-if (not (dbuffer_can_read d (1 + varint_len (peek_first d)))) _ _ (none-Kept ℕ) (
          Kept-if (leb (at skipped 0) 0xfc) _ _ (some-Kept (at skipped 0) d1 k1)
            (some-Kept (read_u64_le (put_at (replicate 8 0) 0 bytes) 0) d2 k2)))

  -- Two reads that agree.
  pub record ReadSame {X : Type 0} (o : Option (X × Dbuffer)) (o' : Option (X × List ℕ))
      : Type 0 where
    pub same : Option.map (λ (r : X × Dbuffer). (r.0, stream r.1)) o ≡ o'
    pub kept : Kept o

  pub read_bytes-ReadSame :
      (d : Dbuffer) (n : ℕ) → IsPair d → ReadSame (dbuffer_read_bytes d n) (take_bytes (stream d) n)
  read_bytes-ReadSame d n p = record {
    same = dbuffer_read_bytes-take_bytes d n p.valid;
    kept = dbuffer_read_bytes-Kept d n p;
  }

  pub read_varint-ReadSame :
      (d : Dbuffer) → IsPair d → ReadSame (dbuffer_read_varint d) (take_varint (stream d))
  read_varint-ReadSame d p = record {
    same = dbuffer_read_varint-take_varint d p.valid;
    kept = dbuffer_read_varint-Kept d p;
  }

  -- Two outcomes of steps that agree.
  pub record Same {State : Type 0} (o : StepResult × State × Dbuffer)
      (o' : StepResult × State × List ℕ) : Type 0 where
    pub same : (o.0, o.1, stream o.2) ≡ o'
    pub kept : IsPair o.2

  -- A step that does on a pair of buffers what another one does on the bytes that remain in it.
  abbrev pub Agrees :
      {State : Type 0} → ParsingStep State Dbuffer → ParsingStep State (List ℕ) → Type 0
  Agrees {State} f g =
      (state : State) (d : Dbuffer) → IsPair d → Same (f state d) (g state (stream d))

  module _ {State : Type 0} where
    pub now_Same :
        (r : StepResult) (state : State) (d : Dbuffer)
        → IsPair d
        → Same (r, state, d) (r, state, stream d)
    now_Same r state d p = record { same = refl; kept = p }

    pub bool_Same :
        (c : Bool) (x y : StepResult × State × Dbuffer) (x' y' : StepResult × State × List ℕ)
        → Same x x'
        → Same y y'
        → Same {State = State} (elim c [ true ↦ x | false ↦ y ]) (elim c [ true ↦ x' | false ↦ y' ])
    bool_Same true x y x' y' h k = h
    bool_Same false x y x' y' h k = k

    pub if_Same :
        (c : Bool) (x y : StepResult × State × Dbuffer) (x' y' : StepResult × State × List ℕ)
        → Same x x'
        → Same y y'
        → Same (if c then x else y) (if c then x' else y')
    if_Same true x y x' y' h k = h
    if_Same false x y x' y' h k = k

    pub next_step-Same :
        (r : StepResult) (stop : StepResult → StepResult × State × Dbuffer)
        (stop' : StepResult → StepResult × State × List ℕ) (go : StepResult × State × Dbuffer)
        (go' : StepResult × State × List ℕ)
        → ((q : StepResult) → Same (stop q) (stop' q))
        → Same go go'
        → Same (next_step r stop go) (next_step r stop' go')
    unfolding next_step
    next_step-Same error stop stop' go go' h k = h error
    next_step-Same need_more stop stop' go go' h k = h need_more
    next_step-Same endless stop stop' go go' h k = h endless
    next_step-Same complete stop stop' go go' h k = k

    -- What follows a read.
    pub read_Same :
        {X : Type 0} (o : Option (X × Dbuffer)) (o' : Option (X × List ℕ))
        (none_case : StepResult × State × Dbuffer) (none_case' : StepResult × State × List ℕ)
        (f : X → Dbuffer → StepResult × State × Dbuffer)
        (g : X → List ℕ → StepResult × State × List ℕ)
        → ReadSame o o'
        → Same none_case none_case'
        → ((x : X) (d : Dbuffer) → IsPair d → Same (f x d) (g x (stream d)))
        → Same {State = State}
            (elim o [ none ↦ none_case | some (x, d) ↦ f x d ])
            (elim o' [ none ↦ none_case' | some (x, s) ↦ g x s ])
    unfolding Kept
    read_Same {X = X} o o' n n' f g r hn hf = go o r.same r.kept
      where
        go :
            (q : Option (X × Dbuffer))
            → Option.map (λ (r : X × Dbuffer). (r.0, stream r.1)) q ≡ o'
            → Kept q
            → Same {State = State}
                (elim q [ none ↦ n | some (x, d) ↦ f x d ])
                (elim o' [ none ↦ n' | some (x, s) ↦ g x s ])
        go none e k = rw⁻¹ e hn
        go (some (x, d)) e k = rw⁻¹ e (hf x d k)

    -- What follows a step.
    pub step_Same :
        {A : Type 0} (o : StepResult × A × Dbuffer) (o' : StepResult × A × List ℕ)
        (f : StepResult → A → Dbuffer → StepResult × State × Dbuffer)
        (g : StepResult → A → List ℕ → StepResult × State × List ℕ)
        → Same o o'
        → ((r : StepResult) (a : A) (d : Dbuffer) → IsPair d → Same (f r a d) (g r a (stream d)))
        → Same (f o.0 o.1 o.2) (g o'.0 o'.1 o'.2)
    step_Same (r, a, d) o' f g e h = rw⁻¹ e.same (h r a d e.kept)
