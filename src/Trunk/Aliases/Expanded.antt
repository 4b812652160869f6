-- ===== src/Trunk/Aliases/Expanded.antt =====
-- What is left after aliases are resolved.
use borromean_rings.Base.{
  ℕ, zero, suc, String, ◌≡◌, refl, ◌⊎◌, inl, inr, true, Option, none, some, List, [], ◌∷◌, ◌++◌,
  elem, Bool-cases,
}
use borromean_rings.Words.{starts_with}
use borromean_rings.Trunk.{Shell}
use borromean_rings.Trunk.Config.{Mapping, lookup}
use borromean_rings.Trunk.Aliases.{
  is_builtin, Resolved, Expansion, unreadable, expands, expansion_of, plain, with_words, expand,
  resolve_step, resolve_from, resolve_alias, max_alias_depth,
}

-- A subcommand that git runs as it stands: a builtin, or no alias.
abbrev pub IsReal : Mapping → String → Type 0
IsReal aliases sub = (is_builtin sub ≡ true) ⊎ (lookup sub aliases ≡ none)

-- An invocation that was seen through is one of a subcommand that git runs as it stands.
abbrev IsSettled : Mapping → Resolved → Type 0
IsSettled aliases r = r.opaque ≡ none → IsReal aliases r.sub

abbrev Settles : Mapping → Option (String → List String → Resolved) → Type 0
Settles aliases none = Unit
Settles aliases (some deeper) =
    (w : String) (args : List String) → IsSettled aliases (deeper w args)

module _ (shell : Shell) (aliases : Mapping) where
  words-IsSettled :
      (deeper : String → List String → Resolved) (current : String) (args : List String)
      (e : Expansion)
      → Settles aliases (some deeper)
      → IsSettled aliases (with_words deeper current args e)
  words-IsSettled deeper current args (unreadable text) d h = cc
  words-IsSettled deeper current args (expands w ws) d h = d w (ws ++ args) h

  expand-IsSettled :
      (deeper : Option (String → List String → Resolved)) (seen : List String) (current : String)
      (args : List String) (expansion : String)
      → Settles aliases deeper
      → IsSettled aliases (expand shell deeper seen current args expansion)
  expand-IsSettled none seen current args expansion d = λ h. cc
  expand-IsSettled (some deeper) seen current args expansion d =
      elim (Bool-cases (elem current seen)) [
        | inl e ↦ rw e (λ h. cc)
        | inr e ↦ elim (Bool-cases (starts_with expansion "!")) [
          | inl f ↦ rw (e, f) (λ h. cc)
          | inr f ↦
              rw (e, f)
                (words-IsSettled deeper current args
                  (expansion_of current expansion (shell.split expansion)) d)
        ]
      ]

  step-IsSettled :
      (deeper : Option (String → List String → Resolved)) (seen : List String) (current : String)
      (args : List String) (o : Option String)
      → lookup current aliases ≡ o
      → Settles aliases deeper
      → IsSettled aliases (resolve_step shell deeper seen current args o)
  step-IsSettled deeper seen current args none l d = λ h. inr l
  step-IsSettled deeper seen current args (some expansion) l d =
      elim (Bool-cases (is_builtin current)) [
        | inl e ↦ rw e (λ h. inl e)
        | inr e ↦ rw e (expand-IsSettled deeper seen current args expansion d)
      ]

  resolve_from-IsSettled :
      (left : ℕ) (seen : List String) (current : String) (args : List String)
      → IsSettled aliases (resolve_from shell aliases left seen current args)
  unfolding resolve_from
  resolve_from-IsSettled zero seen current args =
      step-IsSettled none seen current args (lookup current aliases) refl tt
  resolve_from-IsSettled (suc left) seen current args =
      step-IsSettled (some (resolve_from shell aliases left (current ∷ seen))) seen current args
        (lookup current aliases) refl (resolve_from-IsSettled left (current ∷ seen))

  -- What the resolution sees through is a subcommand that git runs as it stands, a builtin or a
  -- name that is no alias, however the aliases are chained.
  pub resolve_alias-IsReal :
      (sub : String) (args : List String)
      → (resolve_alias shell sub args aliases).opaque ≡ none
      → IsReal aliases (resolve_alias shell sub args aliases).sub
  unfolding resolve_alias
  resolve_alias-IsReal = resolve_from-IsSettled max_alias_depth []

  step-builtin :
      (deeper : Option (String → List String → Resolved)) (seen : List String) (sub : String)
      (args : List String) (o : Option String)
      → is_builtin sub ≡ true
      → resolve_step shell deeper seen sub args o ≡ plain sub args
  step-builtin deeper seen sub args none h = refl
  step-builtin deeper seen sub args (some expansion) h = rw h refl

  pub resolve_alias-builtin :
      (sub : String) (args : List String)
      → is_builtin sub ≡ true
      → resolve_alias shell sub args aliases ≡ plain sub args
  unfolding resolve_alias resolve_from
  resolve_alias-builtin sub args h =
      step-builtin (some (resolve_from shell aliases 7 (sub ∷ []))) [] sub args (lookup sub aliases)
        h
