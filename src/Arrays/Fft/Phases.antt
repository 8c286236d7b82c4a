-- ===== src/Arrays/Fft/Phases.antt =====
-- The phases of a record with `subFFT`.
use pscdrv.Common.{
  ℕ, zero, suc, List, [], length, take, overwrite, lookup, true, false, Option, none, some, ◌+◌,
  ◌*◌, ◌≤◌, ◌≡◌, ◌≢◌, refl, ap, ◌∙◌, sym, subst, ◌⊎◌, arith, length-overwrite, take-overwrite,
  get_or-take, Bool-cases, inl, inr, ◌==◌, ==_iff,
}
use pscdrv.Floating.{Floating}
use pscdrv.Arrays.Fft.{
  Library, FftData, Sub, processed, Fresh, magnitudes, sub_fft, fftworker, with_output,
}

module _ (fl : Floating) (lib : Library fl.Double) (nea neva : ℕ) where
  open fl use {Double}

  -- What the library does to lengths: it refuses a table whose size is not that of the data, and only
  -- that, and keeps the length.
  pub record IsLength : Type 0 where
    pub refuses : (n : ℕ) (xs : List Double) → length xs ≢ n → lib.transform (lib.alloc n) xs ≡ none
    pub transforms :
        (xs : List Double)
        → (ys : List Double) × (lib.transform (lib.alloc (length xs)) xs ≡ some ys)
          × (length ys ≡ length xs)
    pub unpack : (xs : List Double) → length (lib.unpack xs) ≡ 2 * length xs

  -- Every table in the storage is the one for its size.
  abbrev pub IsStorage : List (ℕ × lib.Wavetable) → Type 0
  IsStorage tables = (n : ℕ) (w : lib.Wavetable) → lookup n tables ≡ some w → w ≡ lib.alloc n

  -- The real and imaginary parts of the transform, where there is one.
  abbrev pub spectrum : List Double → List Double
  spectrum a = elim (lib.transform (lib.alloc nea) a) [ none ↦ [] | some ys ↦ lib.unpack ys ]

  -- The record before its first processing, with room for NEVA elements in VALA.
  abbrev pub initial : List Double → List (ℕ × lib.Wavetable) → Sub fl lib
  initial vala tables = record { pact = false; dpvt = none; vala = vala; nova = 0; wtmap = tables }

  -- The states that the record reaches, by the input that it took last: it is processed while it is
  -- not active, the worker makes a round, and its callback has it processed while it is active.
  pub data Reach : List Double → Sub fl lib → Type 0 where
    begun :
        (vala : List Double) (tables : List (ℕ × lib.Wavetable))
        → length vala ≡ neva
        → IsStorage tables
        → Reach [] (initial vala tables)
    started :
        {a b : List Double} {s s' : Sub fl lib} (fresh : Fresh fl lib)
        → Reach a s
        → s.pact ≡ false
        → length b ≤ nea
        → sub_fft fl lib fresh nea neva b s ≡ processed s'
        → Reach b s'
    worked :
        {a : List Double} {s : Sub fl lib} {f g : FftData fl lib}
        → Reach a s
        → s.dpvt ≡ some f
        → f.signalled ≡ true
        → f.done ≡ false
        → fftworker fl lib f ≡ some g
        → Reach a (record s { dpvt = some g })
    called_back :
        (b : List Double) {a : List Double} {s s' : Sub fl lib} {f : FftData fl lib}
        (fresh : Fresh fl lib)
        → Reach a s
        → s.dpvt ≡ some f
        → f.requested ≡ true
        → sub_fft fl lib fresh nea neva b
            (record s { dpvt = some (record f { requested = false }) })
          ≡ processed s'
        → Reach a s'

  pub record IsSized (f : FftData fl lib) : Type 0 where
    pub samples : length f.samples ≡ nea
    pub coeffs : length f.cmplx_coeffs ≡ 2 * nea
    pub real : f.real ≡ lib.alloc nea

  -- Between processings VALA shows the magnitudes of the transform of the last input.
  abbrev pub IsRested : Option (FftData fl lib) → Type 0
  IsRested none = Unit
  IsRested (some f) = IsSized f × (f.signalled ≡ false) × (f.requested ≡ false)

  abbrev pub IsIdle : List Double → Sub fl lib → Type 0
  IsIdle a s =
      (s.pact ≡ false)
      × IsRested s.dpvt
      × (s.nova ≡ length a)
      × ((length a ≡ nea) ⊎ (a ≡ []))
      × (take (length a) s.vala ≡ magnitudes fl lib (length a) (spectrum a) 0 (length a))

  -- The worker has been signalled, and has the input.
  abbrev pub HasInput : List Double → FftData fl lib → Type 0
  HasInput a f =
      IsSized f
      × (f.signalled ≡ true)
      × (f.requested ≡ false)
      × (f.count ≡ length a)
      × (length a ≤ nea)
      × (take (length a) f.samples ≡ a)

  -- The callback is queued, and the transform is there.
  abbrev pub HasOutput : List Double → FftData fl lib → Type 0
  HasOutput a f =
      IsSized f
      × (f.signalled ≡ false)
      × (f.requested ≡ true)
      × (f.count ≡ length a)
      × (length a ≡ nea)
      × (take (2 * length a) f.cmplx_coeffs ≡ spectrum a)

  abbrev pub IsActive : List Double → Sub fl lib → Type 0
  IsActive a s =
      (s.pact ≡ true) × (f : FftData fl lib) × (s.dpvt ≡ some f) × (HasInput a f ⊎ HasOutput a f)

  abbrev pub IsPhase : List Double → Sub fl lib → Type 0
  IsPhase a s = (length s.vala ≡ neva) × IsStorage s.wtmap × (IsIdle a s ⊎ IsActive a s)

  -- The first processing hands over the input.
  pub input-HasInput :
      (b : List Double) (g : FftData fl lib)
      → IsSized g
      → g.requested ≡ false
      → length b ≤ nea
      → HasInput b
          (record g { signalled = true; count = length b; samples = overwrite b g.samples })
  input-HasInput b g z r h = (
    record { samples = length-overwrite b g.samples ∙ z.samples; coeffs = z.coeffs; real = z.real },
    refl,
    r,
    refl,
    h,
    take-overwrite b g.samples (omega (arith, z.samples)),
  )

  -- What the library transforms has NEA elements, and keeps them.
  transform-full :
      (a ys : List Double)
      → IsLength
      → lib.transform (lib.alloc nea) a ≡ some ys
      → (length a ≡ nea) × (length ys ≡ nea)
  transform-full a ys laws t = elim (Bool-cases (length a == nea)) [
    | inr other ↦
        let apart : length a ≢ nea = λ e. ground arith in
        let nothing = laws.refuses nea a apart in absurd (ground arith)
    | inl same ↦
        let full = (==_iff (length a) nea).0 same in
        let (zs, t', l) = laws.transforms a in
        let t'' = subst (λ k. lib.transform (lib.alloc k) a ≡ some zs) full t' in
        (full, ground arith)
  ]

  with_output-some :
      (f g : FftData fl lib) (o : Option (List Double))
      → with_output fl lib f o ≡ some g
      → (ys : List Double) × (o ≡ some ys) × (with_output fl lib f (some ys) ≡ some g)
  with_output-some f g none e = absurd (ground arith)
  with_output-some f g (some ys) e = (ys, refl, e)

  -- The worker's round makes the transform of an input of NEA elements, and gets nothing from the
  -- library for a shorter one.
  pub fftworker-HasOutput :
      (a : List Double) (f g : FftData fl lib)
      → IsLength
      → HasInput a f
      → fftworker fl lib f ≡ some g
      → HasOutput a g
  unfolding fftworker
  fftworker-HasOutput a f g laws (z, up, r, n, h, e) made =
      let (ys, t, m) = with_output-some f g _ made in
      let t' : lib.transform (lib.alloc nea) a ≡ some ys =
        subst (λ w. lib.transform w a ≡ some ys) z.real
          (subst (λ xs. lib.transform f.real xs ≡ some ys) e
            (subst (λ k. lib.transform f.real (take k f.samples) ≡ some ys) n t)) in
      let (full, kept) = transform-full a ys laws t' in
      let u = laws.unpack ys in
      let is : g ≡ record f {
        signalled = false;
        samples = overwrite ys f.samples;
        cmplx_coeffs = overwrite (lib.unpack ys) f.cmplx_coeffs;
        requested = true;
      } =
        ap (λ o. elim o [ none ↦ f | some x ↦ x ]) (sym m) in
      let size : length (lib.unpack ys) ≡ 2 * length a = omega (arith, u) in
      let shown : spectrum a ≡ lib.unpack ys =
        ap (λ o. elim o [ none ↦ [] | some xs ↦ lib.unpack xs ]) t' in
      rw is (
        record {
          samples = length-overwrite ys f.samples ∙ z.samples;
          coeffs = length-overwrite (lib.unpack ys) f.cmplx_coeffs ∙ z.coeffs;
          real = z.real;
        },
        refl,
        refl,
        n,
        full,
        subst (λ k. take k (overwrite (lib.unpack ys) f.cmplx_coeffs) ≡ lib.unpack ys) size
              (take-overwrite (lib.unpack ys) f.cmplx_coeffs (omega (arith, size, z.coeffs)))
            ∙ sym shown,
      )

  pub length-magnitudes :
      (count : ℕ) (c : List Double) (i n : ℕ) → length (magnitudes fl lib count c i n) ≡ n
  unfolding magnitudes
  length-magnitudes count c i zero = refl
  length-magnitudes count c i (suc n) = ap suc (length-magnitudes count c (suc i) n)

  magnitudes-take :
      (count : ℕ) (c : List Double) (i n m : ℕ)
      → 2 * (i + n) ≤ m
      → magnitudes fl lib count (take m c) i n ≡ magnitudes fl lib count c i n
  unfolding magnitudes
  magnitudes-take count c i zero m h = refl
  magnitudes-take count c i (suc n) m h =
      rw
        (
          get_or-take (2 * i) m c (fl.of_int 0) (omega arith),
          get_or-take (2 * i + 1) m c (fl.of_int 0) (omega arith),
          magnitudes-take count c (suc i) n m (omega arith),
        )
        refl

  -- The second processing shows the magnitudes.
  pub output-shown :
      (a vala : List Double) (f : FftData fl lib)
      → HasOutput a f
      → length a ≤ length vala
      → take (length a) (overwrite (magnitudes fl lib f.count f.cmplx_coeffs 0 f.count) vala)
        ≡ magnitudes fl lib (length a) (spectrum a) 0 (length a)
  output-shown a vala f (z, down, r, n, h, e) k =
      let count = length a in
      let out = magnitudes fl lib count f.cmplx_coeffs 0 count in
      let size = length-magnitudes count f.cmplx_coeffs 0 count in
      rw n (
        subst (λ j. take j (overwrite out vala) ≡ out) size
          (take-overwrite out vala (omega (arith, size)))
        ∙ sym (magnitudes-take count f.cmplx_coeffs 0 count (2 * count) (omega arith))
        ∙ ap (λ c. magnitudes fl lib count c 0 count) e)
