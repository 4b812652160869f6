-- ===== src/Change/Digest.antt =====
-- When two lists of gated inputs give one stream of bytes.
use mathlib.Core.List.{append_assoc}
use mathlib.Core.Path.{ap₂}
use borromean_rings.Base.{
  ℕ, ◌≡◌, ◌≢◌, refl, ap, sym, ◌∙◌, subst, Option, none, some, List, [], ◌∷◌, ◌++◌, map, All, arith,
}
use borromean_rings.StateHome.{FilePath}
use borromean_rings.Change.Inputs.{Source, Hashing, as_posix, stream, frame, frame_all}

-- What the digest is meant to see of an input.
abbrev pub seen : Hashing → Source → List ℕ × Option (List ℕ)
seen h s = (h.encode (as_posix s.path), s.bytes)

abbrev pub NoNul : List ℕ → Type 0
NoNul = All (λ c. c ≢ 0)

abbrev OptionNoNul : Option (List ℕ) → Type 0
OptionNoNul none = Unit
OptionNoNul (some bytes) = NoNul bytes

abbrev pub IsPlain : Hashing → Source → Type 0
IsPlain h s = NoNul (h.encode (as_posix s.path)) × OptionNoNul s.bytes

-- Up to its first NUL a stream is read in one way.
before_nul : (a b r s : List ℕ) → NoNul a → NoNul b → a ++ 0 ∷ r ≡ b ++ 0 ∷ s → (a ≡ b) × (r ≡ s)
before_nul [] [] r s ha hb e = (refl, ground arith)
before_nul [] (y ∷ b) r s ha hb e = absurd (hb.0 (ground arith))
before_nul (x ∷ a) [] r s ha hb e = absurd (ha.0 (ground arith))
before_nul (x ∷ a) (y ∷ b) r s ha hb e =
    let (p, q) = before_nul a b r s ha.1 hb.1 (ground arith) in (ground arith, q)

nul_ends : (a r : List ℕ) → ¬ (a ++ 0 ∷ r ≡ [])
nul_ends [] r e = cc
nul_ends (x ∷ a) r e = cc

-- The parts behind a stream that could be read.
frame_parts :
    (h : Hashing) (path : FilePath) (bytes rest : Option (List ℕ)) (x : List ℕ)
    → frame_all h path bytes rest ≡ some x
    → (b : List ℕ) × (r : List ℕ) × (bytes ≡ some b) × (rest ≡ some r) × (frame h path b r ≡ x)
frame_parts h path (some b) (some r) x e = (b, r, refl, refl, ground arith)
frame_parts h path (some b) none x e = cc
frame_parts h path none rest x e = cc

frame_injective :
    (h : Hashing) (p q : FilePath) (b c r s : List ℕ)
    → NoNul (h.encode (as_posix p))
    → NoNul (h.encode (as_posix q))
    → NoNul b
    → NoNul c
    → frame h p b r ≡ frame h q c s
    → (h.encode (as_posix p) ≡ h.encode (as_posix q)) × (b ≡ c) × (r ≡ s)
frame_injective h p q b c r s hp hq hb hc e =
    let (names, more) =
      before_nul (h.encode (as_posix p)) (h.encode (as_posix q)) (b ++ 0 ∷ r) (c ++ 0 ∷ s) hp hq
        e in
    let (bytes, rest) = before_nul b c r s hb hc more in (names, bytes, rest)

ambiguous_frame :
    (h : Hashing) (a b : FilePath) (x y : List ℕ) (rest : Option (List ℕ))
    → frame_all h a (some (x ++ 0 ∷ (h.encode (as_posix b) ++ 0 ∷ y))) rest
      ≡ frame_all h a (some x) (frame_all h b (some y) rest)
ambiguous_frame h a b x y none = refl
ambiguous_frame h a b x y (some r) = simp append_assoc

module _ (h : Hashing) where
  stream_cons_ne :
      (s : Source) (ss : List Source) (x : List ℕ)
      → stream h [] ≡ some x
      → stream h (s ∷ ss) ≡ some x
      → ⊥
  unfolding stream
  stream_cons_ne s ss x p q =
      let (b, r, e, f, g) = frame_parts h s.path s.bytes (stream h ss) x q in
      let nil_ : ◌≡◌ {A = List ℕ} [] x = ground arith in
      nul_ends (h.encode (as_posix s.path)) (b ++ 0 ∷ r) (g ∙ sym nil_)

  -- Two lists of inputs whose paths and bytes hold no NUL give one stream only if they hold the
  -- same paths with the same bytes, in the same order.
  pub stream_injective :
      (ss ts : List Source) (x : List ℕ)
      → All (IsPlain h) ss
      → All (IsPlain h) ts
      → stream h ss ≡ some x
      → stream h ts ≡ some x
      → map (seen h) ss ≡ map (seen h) ts
  unfolding stream
  stream_injective [] [] x hs ht p q = refl
  stream_injective [] (t ∷ ts) x hs ht p q = absurd (stream_cons_ne t ts x p q)
  stream_injective (s ∷ ss) [] x hs ht p q = absurd (stream_cons_ne s ss x q p)
  stream_injective (s ∷ ss) (t ∷ ts) x hs ht p q =
      let (b, r, e, f, g) = frame_parts h s.path s.bytes (stream h ss) x p in
      let (c, u, e', f', g') = frame_parts h t.path t.bytes (stream h ts) x q in
      let (names, bytes, rest) =
        frame_injective h s.path t.path b c r u hs.0.0 ht.0.0 (subst OptionNoNul e hs.0.1)
          (subst OptionNoNul e' ht.0.1) (g ∙ sym g') in
      let head : seen h s ≡ seen h t = λ i. (names i, (e ∙ ap some bytes ∙ sym e') i) in
      ap₂ ◌∷◌ head (stream_injective ss ts r hs.1 ht.1 f (f' ∙ ap some (sym rest)))

  stream-append :
      (pre ss ts : List Source)
      → stream h ss ≡ stream h ts
      → stream h (pre ++ ss) ≡ stream h (pre ++ ts)
  unfolding stream
  stream-append [] ss ts e = e
  stream-append (s ∷ pre) ss ts e = rw (stream-append pre ss ts e)

  -- One file whose bytes go on, after a NUL, as another file would, is hashed as the two files.
  pub stream_ambiguous :
      (pre rest : List Source) (a b : FilePath) (x y : List ℕ)
      → stream h (
          pre
          ++ record { path = a; bytes = some (x ++ 0 ∷ (h.encode (as_posix b) ++ 0 ∷ y)) } ∷ rest)
        ≡ stream h (
            pre ++ record { path = a; bytes = some x } ∷ record { path = b; bytes = some y } ∷ rest)
  unfolding stream
  stream_ambiguous pre rest a b x y =
      stream-append pre _ _ (ambiguous_frame h a b x y (stream h rest))
