-- ===== src/Identity/Guard/Stated.antt =====
-- That an address stated in any of the spellings that the guard reads is refused.
use mathlib.Core.Bool.{false≢true}
use borromean_rings.Base.{
  String, ◌≡◌, ◌≢◌, refl, sym, ap, ◌∙◌, inl, inr, Bool, true, false, Option, none, some, List, [],
  ◌∷◌, ◌++◌, ◌==◌, All, keep, eq_iff, Bool-cases,
}
use borromean_rings.Words.{glue, remove_prefix, starts_with, cut_front, after_char, before_char}
use borromean_rings.Identity.{Identity, is_enforced}
use borromean_rings.Identity.Command.{Lexer, git_invocations}
use borromean_rings.Identity.Overrides.{
  Override, author_value, email_value, email_of, override_in_arg, env_override, ends_with,
  arg_overrides, overrides_in, config_env_pairs, next_of, add_override,
}
use borromean_rings.Identity.Guard.{writes_commit, has_marker, command_override_violation}
use borromean_rings.Identity.Guard.Agreeing.{
  Agrees, IsAllowed, StatesDeclared, command_override_violation-none,
}

pub data Spelling : Type 0 where
  author_equals : Spelling
  author_next : Spelling
  config_next : Spelling
  config_joined : Spelling
  author_variable : Spelling
  committer_variable : Spelling

-- The arguments that state a value.
abbrev pub spelled : Spelling → String → List String
spelled author_equals v = glue "--author=" v ∷ []
spelled author_next v = "--author" ∷ v ∷ []
spelled config_next v = "-c" ∷ glue "user.email=" v ∷ []
spelled config_joined v = glue "-cuser.email=" v ∷ []
spelled author_variable v = glue "GIT_AUTHOR_EMAIL=" v ∷ []
spelled committer_variable v = glue "GIT_COMMITTER_EMAIL=" v ∷ []

-- The address that the value has there.
abbrev pub address : Spelling → String → String
address author_equals v = email_of v
address author_next v = email_of v
address config_next v = v
address config_joined v = v
address author_variable v = v
address committer_variable v = v

abbrev kind_at : Spelling → String → Override
kind_at author_equals v = (author_value, v)
kind_at author_next v = (author_value, v)
kind_at config_next v = (email_value, v)
kind_at config_joined v = (email_value, v)
kind_at author_variable v = (email_value, v)
kind_at committer_variable v = (email_value, v)

-- Texts that a test tells apart are not equal.
told_apart :
    (test : String → Bool) (a b : String) → test a ≡ true → test b ≡ false → (a == b) ≡ false
told_apart test a b h k = elim (Bool-cases (a == b)) [
  | inl e ↦ elim (false≢true (sym k ∙ (ap test (sym ((eq_iff a b).0 e)) ∙ h))) [ ]
  | inr e ↦ e
]

not_author :
    (prefix v : String)
    → starts_with (glue prefix v) prefix ≡ true
    → starts_with "--author" prefix ≡ false
    → (glue prefix v == "--author") ≡ false
not_author prefix v h k = told_apart (λ s. starts_with s prefix) (glue prefix v) "--author" h k

not_config :
    (prefix v : String)
    → starts_with (glue prefix v) prefix ≡ true
    → starts_with "-c" prefix ≡ false
    → (glue prefix v == "-c") ≡ false
not_config prefix v h k = told_apart (λ s. starts_with s prefix) (glue prefix v) "-c" h k

read-spelled :
    (s : Spelling) (v : String) (rest : List String)
    → (later : List Override) × (arg_overrides (spelled s v ++ rest) ≡ kind_at s v ∷ later)
unfolding arg_overrides override_in_arg starts_with cut_front remove_prefix before_char after_char
    env_override ends_with
read-spelled author_equals v rest = rw (not_author "--author=" v refl refl) (_, refl)
read-spelled author_next v rest = (_, refl)
read-spelled config_next v rest = (_, refl)
read-spelled config_joined v rest =
    rw (not_author "-cuser.email=" v refl refl, not_config "-cuser.email=" v refl refl) (_, refl)
read-spelled author_variable v rest =
    rw (not_author "GIT_AUTHOR_EMAIL=" v refl refl, not_config "GIT_AUTHOR_EMAIL=" v refl refl)
      (_, refl)
read-spelled committer_variable v rest =
    rw
      (not_author "GIT_COMMITTER_EMAIL=" v refl refl, not_config "GIT_COMMITTER_EMAIL=" v refl refl)
      (_, refl)

All-right {ℓ} : {A : Type ℓ} (Q : A → Type 0) (xs ys : List A) → All Q (xs ++ ys) → All Q ys
All-right Q [] ys h = h
All-right Q (x ∷ xs) ys (q, h) = All-right Q xs ys h

All-later :
    (Q : Override → Type 0) (o : Option Override) (os : List Override)
    → All Q (add_override o os)
    → All Q os
All-later Q none os h = h
All-later Q (some x) os (q, h) = h

-- What is read from some arguments is read wherever they stand.
All-suffix :
    (Q : Override → Type 0) (before args : List String)
    → All Q (arg_overrides (before ++ args))
    → All Q (arg_overrides args)
unfolding arg_overrides
All-suffix Q [] args h = h
All-suffix Q (b ∷ before) args h =
    All-suffix Q before args (
      All-later Q (override_in_arg b (next_of (before ++ args))) (arg_overrides (before ++ args)) h)

All-kept :
    (Q : List String → Type 0) (left right : List (List String)) (i : List String)
    → writes_commit i ≡ true
    → All Q (keep writes_commit (left ++ i ∷ right))
    → Q i
All-kept Q [] right i w h = (rw w at h).0
All-kept Q (l ∷ left) right i w h = elim (Bool-cases (writes_commit l)) [
  | inl e ↦ All-kept Q left right i w (rw e at h).1
  | inr e ↦ All-kept Q left right i w (rw e at h)
]

allowed-address :
    (s : Spelling) (v : String) (declared : Identity)
    → IsAllowed declared (kind_at s v)
    → Agrees declared.email (address s v)
allowed-address author_equals v declared h = h.0
allowed-address author_next v declared h = h.0
allowed-address config_next v declared h = h
allowed-address config_joined v declared h = h
allowed-address author_variable v declared h = h
allowed-address committer_variable v declared h = h

enforced : (declared : Identity) → declared.email ≢ "" → is_enforced declared ≡ true
unfolding is_enforced
enforced declared h = elim (Bool-cases (declared.email == "")) [
  | inl e ↦ elim (h ((eq_iff declared.email "").0 e)) [ ]
  | inr e ↦ rw e refl
]

-- Where an address is declared, a commit or a push that states another one, not empty, is refused,
-- in each of the six spellings and among whatever other arguments it stands. The command can be
-- lexed, it mentions a way to state an identity, and the commit is one of the invocations found.
pub command_override_violation-spelled :
    (lexer : Lexer) (command : String) (declared : Identity) (tokens : List String) (s : Spelling)
    (v : String) (before rest : List String) (left right : List (List String))
    → lexer.tokenize command ≡ some tokens
    → has_marker command ≡ true
    → git_invocations lexer command ≡ left ++ (before ++ (spelled s v ++ rest)) ∷ right
    → writes_commit (before ++ (spelled s v ++ rest)) ≡ true
    → declared.email ≢ ""
    → address s v ≢ ""
    → address s v ≢ declared.email
    → command_override_violation lexer command declared ≢ none
unfolding overrides_in
command_override_violation-spelled lexer command declared tokens s v before rest left right lexed
      marked found writes given filled other none_found =
    let (to, from) =
      command_override_violation-none lexer command declared tokens (enforced declared given) marked
        lexed in
    let args = before ++ (spelled s v ++ rest) in
    let stated =
      All-kept (StatesDeclared declared) left right args writes (rw found at to none_found) in
    let (later, read) = read-spelled s v rest in
    let at_args =
      All-suffix (IsAllowed declared) before (spelled s v ++ rest)
        (All-right (IsAllowed declared) (config_env_pairs args) (arg_overrides args) stated) in
    elim (allowed-address s v declared (rw read at at_args).0) [
      | inl e ↦ filled e
      | inr f ↦ elim f [ inl e ↦ given e | inr e ↦ other e ]
    ]
