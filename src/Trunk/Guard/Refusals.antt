-- ===== src/Trunk/Guard/Refusals.antt =====
-- What the guard refuses, and that it refuses no less than the floor.
use borromean_rings.Base.{
  ℕ, zero, suc, String, ◌≡◌, ◌≢◌, refl, sym, subst, ◌⊎◌, ◌∙◌, ◌↔◌, Bool, true, false, ◌||◌, ◌&&◌,
  Option, none, some, List, [], ◌∷◌, ◌++◌, All, elem, arith, Bool-cases, Option-cases, inl, inr,
  if◌then◌else◌,
}
use borromean_rings.Words.{contains}
use borromean_rings.Trunk.{Shell, Invocation, RepoFacts}
use borromean_rings.Trunk.Command.{located_invocations, git_subcommand, moves_repo}
use borromean_rings.Trunk.Push.{Reason, push_violation}
use borromean_rings.Trunk.Config.{has_verb, Mapping, inline_aliases}
use borromean_rings.Trunk.Aliases.{is_builtin, plain}
use borromean_rings.Trunk.Planted.{alias_write_violation, alias_floor}
use borromean_rings.Trunk.Aliases.Expanded.{resolve_alias-builtin}
use borromean_rings.Trunk.Guard.{
  moves_head, floor_violation, ref_violation, first_reason, or_reason, plain_reason,
  resolved_reason, unplanted_reason, judge_with, invocation_violation, facts_for, judge_in,
  default_facts, floors, branch_policy_violation,
}

or_reason-none : (a b : Option Reason) → (or_reason a b ≡ none) ↔ ((a ≡ none) × (b ≡ none))
or_reason-none none b = (λ h. (refl, h), λ (x, y). y)
or_reason-none (some r) b = (λ h. cc, λ (x, y). cc)

first_reason-none :
    (judge : Invocation → Option Reason) (is : List Invocation)
    → (first_reason judge is ≡ none) ↔ All (λ i. judge i ≡ none) is
first_reason-none judge [] = (λ h. tt, λ h. refl)
first_reason-none judge (i ∷ is) = elim (Option-cases (judge i)) [
  | inl e ↦
      let (to, from) = first_reason-none judge is in
      rw (e, first_reason) (λ h. (refl, to h), λ (a, b). from b)
  | inr (r, e) ↦ rw (e, first_reason) (λ h. cc, λ (a, b). cc)
]

-- A text that mentions a commit or a push, as the floor reads it.
abbrev pub mentions : String → Bool
mentions command = contains command "git commit" || contains command "git push"

floor-none :
    (command head : String) (protected : List String)
    → ((if elem head protected then floor_violation command head else none) ≡ none)
      ↔ ((elem head protected && mentions command) ≡ false)
unfolding floor_violation
floor-none command head protected = elim (Bool-cases (elem head protected)) [
  | inl e ↦ elim (Bool-cases (mentions command)) [
    | inl f ↦ rw (e, f) (λ h. cc, λ h. cc)
    | inr f ↦ rw (e, f) (λ h. refl, λ h. refl)
  ]
  | inr e ↦ rw e (λ h. refl, λ h. refl)
]

-- An invocation that stays in the repository of the command, and one that acts on another.
abbrev pub StaysHere : Invocation → Type 0
StaysHere i = (i.cwd ≡ none) × (moves_repo i.argv ≡ false)

abbrev pub GoesElsewhere : Invocation → Type 0
GoesElsewhere i = ((cwd : String) × (i.cwd ≡ some cwd)) ⊎ (moves_repo i.argv ≡ true)

-- The facts of the repository that an invocation acts on: the command's own, or what the resolver
-- says of another one.
abbrev pub ActsOn : Option (Invocation → RepoFacts) → RepoFacts → Invocation → RepoFacts → Type 0
ActsOn none own i facts = facts ≡ own
ActsOn (some facts_at) own i facts =
    StaysHere i × (facts ≡ own) ⊎ GoesElsewhere i × (facts ≡ facts_at i)

-- An invocation that the guard lets through: it acts on a repository that is not governed, or its
-- judgement by the facts of the one that it acts on finds no reason.
abbrev pub IsLetThrough :
    Shell → List String → Option (Invocation → RepoFacts) → RepoFacts → Invocation → Type 0
IsLetThrough shell protected facts_at own i =
    (facts : RepoFacts) × ActsOn facts_at own i facts
    × ((facts.governed ≡ false) ⊎ (invocation_violation shell facts protected 4 i ≡ none))

facts_for-ActsOn :
    (facts_at : Option (Invocation → RepoFacts)) (own : RepoFacts) (i : Invocation)
    → ActsOn facts_at own i (facts_for facts_at own i)
unfolding facts_for
facts_for-ActsOn none own i = refl
facts_for-ActsOn (some facts_at) own i = elim (Option-cases i.cwd) [
  | inr (cwd, e) ↦ rw e (inr (inl (cwd, refl), refl))
  | inl e ↦ elim (Bool-cases (moves_repo i.argv)) [
    | inl m ↦ rw (e, m) (inr (inr refl, refl))
    | inr m ↦ rw (e, m) (inl ((refl, refl), refl))
  ]
]

acts_here :
    (facts_at : Invocation → RepoFacts) (own : RepoFacts) (i : Invocation)
    → StaysHere i
    → facts_for (some facts_at) own i ≡ own
unfolding facts_for
acts_here facts_at own i (e, m) = rw (e, m) refl

acts_elsewhere :
    (facts_at : Invocation → RepoFacts) (own : RepoFacts) (i : Invocation)
    → GoesElsewhere i
    → facts_for (some facts_at) own i ≡ facts_at i
unfolding facts_for
acts_elsewhere facts_at own i (inl (cwd, e)) = rw e refl
acts_elsewhere facts_at own i (inr m) = elim (Option-cases i.cwd) [
  | inl e ↦ rw (e, m) refl
  | inr (cwd, e) ↦ rw e refl
]

-- The facts are determined.
ActsOn-facts_for :
    (facts_at : Option (Invocation → RepoFacts)) (own : RepoFacts) (i : Invocation)
    (facts : RepoFacts)
    → ActsOn facts_at own i facts
    → facts_for facts_at own i ≡ facts
unfolding facts_for
ActsOn-facts_for none own i facts h = sym h
ActsOn-facts_for (some facts_at) own i facts (inl (h, e)) = acts_here facts_at own i h ∙ sym e
ActsOn-facts_for (some facts_at) own i facts (inr (h, e)) = acts_elsewhere facts_at own i h ∙ sym e

judge_in-none :
    (shell : Shell) (protected : List String) (facts : RepoFacts) (i : Invocation)
    → (judge_in shell protected facts i ≡ none)
      ↔ ((facts.governed ≡ false) ⊎ (invocation_violation shell facts protected 4 i ≡ none))
judge_in-none shell protected facts i = elim (Bool-cases facts.governed) [
  | inl e ↦ rw e (λ h. inr h, λ h. elim h [ inl f ↦ cc | inr f ↦ f ])
  | inr e ↦ rw e (λ h. inl refl, λ h. refl)
]

let_through :
    (shell : Shell) (protected : List String) (facts_at : Option (Invocation → RepoFacts))
    (own : RepoFacts) (i : Invocation)
    → (judge_in shell protected (facts_for facts_at own i) i ≡ none)
      ↔ IsLetThrough shell protected facts_at own i
let_through shell protected facts_at own i =
    let (to, from) = judge_in-none shell protected (facts_for facts_at own i) i in
    (
      λ h. (facts_for facts_at own i, facts_for-ActsOn facts_at own i, to h),
      λ (facts, a, h).
          let same = ActsOn-facts_for facts_at own i facts a in
          from (
            subst (λ f. (f.governed ≡ false) ⊎ (invocation_violation shell f protected 4 i ≡ none))
              (sym same) h),
    )

All-iff {ℓ κ} :
    {A : Type 0} {P : A → Type ℓ} {Q : A → Type κ}
    → ((x : A) → P x ↔ Q x)
    → (xs : List A) → All P xs ↔ All Q xs
All-iff f [] = (λ h. tt, λ h. tt)
All-iff f (x ∷ xs) =
    let (to, from) = All-iff f xs in
    let (one, back) = f x in (λ (a, b). (one a, to b), λ (a, b). (back a, from b))

-- A command that mentions where aliases are defined, together with a verb that writes a branch.
abbrev pub mentions_alias : Shell → String → Bool
mentions_alias shell command =
    (contains command "alias."
      || contains command "[alias]"
      || contains command ".git/config"
      || contains command ".gitconfig")
    && has_verb shell command

alias_floor-none :
    (shell : Shell) (command : String)
    → (alias_floor shell command ≡ none) ↔ (mentions_alias shell command ≡ false)
unfolding alias_floor
alias_floor-none shell command = ground arith

pub branch_policy_violation-none :
    (shell : Shell) (command head p : String) (protected : List String) (aliases : Mapping)
    (facts_at : Option (Invocation → RepoFacts))
    → (branch_policy_violation shell command head (p ∷ protected) aliases facts_at ≡ none) ↔ (
        All
          (IsLetThrough shell
            (p ∷ protected)
            facts_at
            (record { head = head; aliases = aliases; governed = true }))
          (located_invocations shell command none)
        × (mentions_alias shell command ≡ false)
        × ((elem head (p ∷ protected) && mentions command) ≡ false))
unfolding branch_policy_violation
branch_policy_violation-none shell command head p protected aliases facts_at =
    let own = default_facts head aliases in
    let judge : Invocation → Option Reason =
      λ i. judge_in shell (p ∷ protected) (facts_for facts_at own i) i in
    let located = located_invocations shell command none in
    let (a, b) =
      or_reason-none (first_reason judge located) (floors shell command head (p ∷ protected)) in
    let (c, d) = first_reason-none judge located in
    let (l, m) = All-iff (let_through shell (p ∷ protected) facts_at own) located in
    let (e, f) =
      or_reason-none (alias_floor shell command)
        (if elem head (p ∷ protected) then floor_violation command head else none) in
    let (q, r) = alias_floor-none shell command in
    let (g, k) = floor-none command head (p ∷ protected) in
    (
      λ h. let (x, y) = a h in let (u, v) = e y in (l (c x), q u, g v),
      λ (x, u, v). b (d (m x), f (r u, k v)),
    )

-- The guard is never narrower than the substring match it replaced: while the current branch is
-- protected, a command that mentions a commit or a push is refused, whatever the parser makes of it.
pub branch_policy_violation-floor :
    (shell : Shell) (command head : String) (protected : List String) (aliases : Mapping)
    (facts_at : Option (Invocation → RepoFacts))
    → elem head protected ≡ true
    → mentions command ≡ true
    → branch_policy_violation shell command head protected aliases facts_at ≢ none
branch_policy_violation-floor shell command head [] aliases facts_at e m h = cc
branch_policy_violation-floor shell command head (p ∷ protected) aliases facts_at e m h =
    let (x, y, z) =
      (branch_policy_violation-none shell command head p protected aliases facts_at).0 h in
    ground (arith, e, m, z)

module _ (shell : Shell) (facts : RepoFacts) (protected : List String) where
  unplanted-plain :
      (deeper : Option (Invocation → Option Reason)) (i : Invocation) (sub : String)
      (args : List String) (planted : Option Reason)
      → is_builtin sub ≡ true
      → unplanted_reason shell facts protected deeper i (sub, args) planted ≡ none
      → plain_reason shell facts protected (plain sub args) ≡ none
  unplanted-plain deeper i sub args (some r) b h = cc
  unplanted-plain deeper i sub args none b h =
      let aliases = inline_aliases shell i.argv ++ facts.aliases in
      subst (λ r. resolved_reason shell facts protected deeper i sub aliases r ≡ none)
        (resolve_alias-builtin shell aliases sub args b) h

  -- A subcommand that is a builtin is judged as it stands, whatever aliases are defined.
  judged_plain :
      (deeper : Option (Invocation → Option Reason)) (i : Invocation)
      → is_builtin (git_subcommand i.argv).0 ≡ true
      → judge_with shell facts protected deeper i ≡ none
      → plain_reason shell facts protected
          (plain (git_subcommand i.argv).0 (git_subcommand i.argv).1)
        ≡ none
  judged_plain deeper i b h =
      unplanted-plain deeper i (git_subcommand i.argv).0 (git_subcommand i.argv).1
        (alias_write_violation shell i.argv (git_subcommand i.argv).0 (git_subcommand i.argv).1) b h

  pub judged_at :
      (n : ℕ) (i : Invocation)
      → invocation_violation shell facts protected n i ≡ none
      → (deeper : Option (Invocation → Option Reason)) × (judge_with shell facts protected deeper i
          ≡ none)
  unfolding invocation_violation
  judged_at zero i h = (none, h)
  judged_at (suc n) i h = (some (invocation_violation shell facts protected n), h)

  push_judged :
      (args : List String)
      → plain_reason shell facts protected (plain "push" args) ≡ none
      → push_violation shell args facts.head protected ≡ none
  unfolding moves_head ref_violation
  push_judged args h = elim (Bool-cases (elem facts.head protected)) [
    | inl e ↦ ground (arith, e, h)
    | inr e ↦ ground (arith, e, h)
  ]

  pushes_refused :
      (sub : String) (args : List String)
      → sub ≡ "push"
      → plain_reason shell facts protected (plain sub args) ≡ none
      → push_violation shell args facts.head protected ≡ none
  pushes_refused sub args e h =
      push_judged args (subst (λ s. plain_reason shell facts protected (plain s args) ≡ none) e h)

  -- What is let through as a push writes no protected branch, from any branch.
  pub invocation_violation-push :
      (n : ℕ) (i : Invocation)
      → (git_subcommand i.argv).0 ≡ "push"
      → invocation_violation shell facts protected n i ≡ none
      → push_violation shell (git_subcommand i.argv).1 facts.head protected ≡ none
  unfolding is_builtin
  invocation_violation-push n i e h =
      let (deeper, q) = judged_at n i h in
      pushes_refused (git_subcommand i.argv).0 (git_subcommand i.argv).1 e
        (judged_plain deeper i (subst (λ s. is_builtin s ≡ true) (sym e) refl) q)
