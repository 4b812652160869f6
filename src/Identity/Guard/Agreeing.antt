-- ===== src/Identity/Guard/Agreeing.antt =====
-- What the guard on a command's own overrides lets through.
use borromean_rings.Base.{
  String, ◌≡◌, refl, sym, ◌↔◌, ◌⊎◌, inl, inr, true, false, not, ◌&&◌, Option, none, some, List, [],
  ◌∷◌, ◌==◌, All, keep, eq_iff, arith, Bool-cases, if◌then◌else◌,
}
use mathlib.Core.Bool.{false≢true}
use borromean_rings.Base.Decimal.{strip}
use borromean_rings.Retry.Count.{count_chars}
use borromean_rings.Words.{has_char}
use borromean_rings.Identity.{Identity, is_set, is_enforced, differs}
use borromean_rings.Identity.Command.{
  Lexer, Found, logical_lines, invocations_in_lines, invocations_at, git_invocations,
}
use borromean_rings.Identity.Overrides.{
  Kind, opaque_key, author_value, email_value, name_value, Override, email_of, name_of,
  overrides_in,
}
use borromean_rings.Identity.Guard.{
  Conflict, author_name, inline_email, inline_name, author_violation, override_violation,
  or_conflict, among_overrides, writes_commit, among_invocations, has_marker,
  command_override_violation,
}
use borromean_rings.Identity.Declared.{Fits, differs-false}

-- An override that states nothing, or the declared value, or a field that is not declared.
abbrev pub Agrees : String → String → Type 0
Agrees declared value = (value ≡ "") ⊎ Fits declared value

-- What one override may state. A value that stands in an environment variable is never accepted.
abbrev pub IsAllowed : Identity → Override → Type 0
IsAllowed declared (opaque_key, value) = ⊥
IsAllowed declared (author_value, value) =
    Agrees declared.email (email_of value) × Agrees declared.name (name_of value)
IsAllowed declared (email_value, value) = Agrees declared.email value
IsAllowed declared (name_value, value) = Agrees declared.name value

clashes-false :
    (declared value : String)
    → ((is_set value && differs declared value) ≡ false) ↔ Agrees declared value
clashes-false declared value = elim (Bool-cases (value == "")) [
  | inl e ↦ rw e (λ h. inl ((eq_iff value "").0 e), λ h. refl)
  | inr e ↦
      let (to, from) = differs-false declared value in
      rw e (
        λ h. inr (to h),
        λ h. elim h [
          | inl a ↦ elim (false≢true (rw e at ((eq_iff value "").1 a))) [ ]
          | inr a ↦ from a
        ],
      )
]

inline-none :
    (declared value : String) (c : Conflict)
    → ((if is_set value && differs declared value then some c else none) ≡ none)
      ↔ Agrees declared value
inline-none declared value c =
    let (to, from) = clashes-false declared value in
    elim (Bool-cases (is_set value && differs declared value)) [
      | inl e ↦ rw e (λ h. cc, λ a. elim (false≢true (sym (rw e at from a))) [ ])
      | inr e ↦ rw e (λ h. to e, λ a. refl)
    ]

-- The same test in the order of `_author_violation`.
swapped :
    (declared value : String)
    → (is_set declared && is_set value && not (value == declared))
      ≡ (is_set value && differs declared value)
swapped declared value = ground arith

author_violation-none :
    (value : String) (declared : Identity)
    → (author_violation value declared ≡ none)
      ↔ (Agrees declared.email (email_of value) × Agrees declared.name (name_of value))
unfolding author_violation
author_violation-none value declared =
    let email = email_of value in
    let name = name_of value in
    let (e, e') = clashes-false declared.email email in
    let (n, n') = inline-none declared.name name (author_name name declared.name) in
    elim (Bool-cases (is_set email && differs declared.email email)) [
      | inl h ↦
          rw (swapped declared.email email, h)
            (λ k. cc, λ (a, b). elim (false≢true (sym (rw h at e' a))) [ ])
      | inr h ↦
          rw (swapped declared.email email, swapped declared.name name, h)
            (λ k. (e h, n k), λ (a, b). n' b)
    ]

-- An `--author` with an empty value states nothing.
empty-Agrees :
    (declared : Identity) → Agrees declared.email (email_of "") × Agrees declared.name (name_of "")
unfolding email_of name_of strip has_char
empty-Agrees declared = (inl refl, inl refl)

override_violation-none :
    (kind : Kind) (value : String) (declared : Identity)
    → (override_violation kind value declared ≡ none) ↔ IsAllowed declared (kind, value)
unfolding override_violation
override_violation-none opaque_key value declared = (λ h. cc, λ h. elim h [ ])
override_violation-none author_value value declared = elim (Bool-cases (value == "")) [
  | inl e ↦ rw (e, (eq_iff value "").0 e) (λ h. empty-Agrees declared, λ a. refl)
  | inr e ↦ rw e (author_violation-none value declared)
]
override_violation-none email_value value declared =
    inline-none declared.email value (inline_email value declared.email)
override_violation-none name_value value declared =
    inline-none declared.name value (inline_name value declared.name)

or_conflict-none : (a b : Option Conflict) → (or_conflict a b ≡ none) ↔ ((a ≡ none) × (b ≡ none))
or_conflict-none none b = (λ h. (refl, h), λ (x, y). y)
or_conflict-none (some c) b = (λ h. cc, λ (x, y). cc)

among_overrides-none :
    (declared : Identity) (overrides : List Override)
    → (among_overrides declared overrides ≡ none) ↔ All (IsAllowed declared) overrides
unfolding among_overrides
among_overrides-none declared [] = (λ h. tt, λ h. refl)
among_overrides-none declared ((kind, value) ∷ overrides) =
    let (to, from) = among_overrides-none declared overrides in
    let (one, one') = override_violation-none kind value declared in
    let (a, b) =
      or_conflict-none (override_violation kind value declared)
        (among_overrides declared overrides) in
    (λ h. let (x, y) = a h in (one x, to y), λ (x, y). b (one' x, from y))

-- Every override of an invocation is allowed.
abbrev pub StatesDeclared : Identity → List String → Type 0
StatesDeclared declared invocation = All (IsAllowed declared) (overrides_in invocation)

among_invocations-none :
    (declared : Identity) (invocations : List (List String))
    → (among_invocations declared invocations ≡ none)
      ↔ All (StatesDeclared declared) (keep writes_commit invocations)
unfolding among_invocations
among_invocations-none declared [] = (λ h. tt, λ h. refl)
among_invocations-none declared (i ∷ invocations) =
    let (to, from) = among_invocations-none declared invocations in
    let (one, one') = among_overrides-none declared (overrides_in i) in
    let (a, b) =
      or_conflict-none (among_overrides declared (overrides_in i))
        (among_invocations declared invocations) in
    elim (Bool-cases (writes_commit i)) [
      | inl e ↦ rw e (λ h. let (x, y) = a h in (one x, to y), λ (x, y). b (one' x, from y))
      | inr e ↦ rw e (to, from)
    ]

-- A command that can be lexed and mentions a way to state an identity is let through exactly when
-- every override in each of its commits and pushes agrees with the declared identity, where one is
-- declared. What it reads as an override, and as an invocation, is what those functions find.
pub command_override_violation-none :
    (lexer : Lexer) (command : String) (declared : Identity) (tokens : List String)
    → is_enforced declared ≡ true
    → has_marker command ≡ true
    → lexer.tokenize command ≡ some tokens
    → (command_override_violation lexer command declared ≡ none)
      ↔ All (StatesDeclared declared) (keep writes_commit (git_invocations lexer command))
unfolding command_override_violation
command_override_violation-none lexer command declared tokens enforced marked lexed =
    rw (enforced, marked, lexed) (among_invocations-none declared (git_invocations lexer command))

no_lines :
    (lexer : Lexer) (nested : String → Found) (lines : List String)
    → All (λ line. lexer.tokenize line ≡ none) lines
    → invocations_in_lines lexer nested lines ≡ some []
unfolding invocations_in_lines
no_lines lexer nested [] h = refl
no_lines lexer nested (line ∷ lines) (e, h) = rw (e, no_lines lexer nested lines h) refl

invocations-unread :
    (lexer : Lexer) (command : String)
    → All (λ line. lexer.tokenize line ≡ none) (logical_lines command)
    → git_invocations lexer command ≡ []
unfolding git_invocations invocations_at
invocations-unread lexer command h =
    rw (no_lines lexer (invocations_at lexer (count_chars command)) (logical_lines command) h) refl

-- A command that can be lexed as a whole, but none of whose lines can be lexed alone, is let
-- through whatever overrides it has: its lines are skipped.
pub command_override_violation-unread :
    (lexer : Lexer) (command : String) (declared : Identity) (tokens : List String)
    → lexer.tokenize command ≡ some tokens
    → All (λ line. lexer.tokenize line ≡ none) (logical_lines command)
    → command_override_violation lexer command declared ≡ none
unfolding command_override_violation among_invocations
command_override_violation-unread lexer command declared tokens lexed unread =
    elim (Bool-cases (is_enforced declared)) [
      | inl e ↦ elim (Bool-cases (has_marker command)) [
        | inl f ↦ rw (e, f, lexed, invocations-unread lexer command unread) refl
        | inr f ↦ rw (e, f) refl
      ]
      | inr e ↦ rw e refl
    ]
