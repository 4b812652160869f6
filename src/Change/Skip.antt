-- ===== src/Change/Skip.antt =====
-- What a Stop that skips the gate has established.
use borromean_rings.Base.{
  ℕ, String, ◌≡◌, refl, ap, sym, ◌∙◌, true, false, Option, none, some, List, ◌∷◌, ◌++◌, ◌==◌, map,
  All, arith, eq_iff, eq_refl,
}
use borromean_rings.Base.Decimal.{strip}
use borromean_rings.StateHome.{FilePath, ok}
use borromean_rings.StateHome.Inside.{path_eq_refl}
use borromean_rings.Change.Inputs.{
  Source, Config, Hashing, as_posix, stream, gated_paths, compute_state_hash, digest_of,
}
use borromean_rings.Change.Record.{
  Host, Store, state_path, read_last_green, record_green, should_skip_gate, same_hash,
}
use borromean_rings.Change.Digest.{seen, IsPlain, stream_injective, stream_ambiguous}

-- A green gate whose record could be made: where it lies, and its digest, a text that `strip`
-- leaves alone and that is not empty.
pub record IsRecorded (host : Host) (tree : List Source) (config : Config) (store : Store)
    : Type 0 where
  pub path : FilePath
  pub hash : String
  pub located : state_path host ≡ ok path
  pub writes : store.writable path ≡ true
  pub computed : compute_state_hash host.hashing tree config ≡ some hash
  pub bare : strip hash ≡ hash
  pub not_empty : (hash == "") ≡ false

read_of_recorded :
    (host : Host) (tree : List Source) (config : Config) (store : Store)
    (r : IsRecorded host tree config store)
    → read_last_green host (record_green host tree config store) ≡ some r.hash
unfolding read_last_green record_green
read_of_recorded host tree config store r =
    rw (r.located) (rw r.computed (rw r.writes (rw path_eq_refl (rw r.bare (rw r.not_empty)))))

skip_of_recorded :
    (host : Host) (tree tree' : List Source) (config : Config) (store : Store)
    (r : IsRecorded host tree config store)
    → should_skip_gate host tree' config (record_green host tree config store)
      ≡ same_hash r.hash (compute_state_hash host.hashing tree' config)
unfolding should_skip_gate
skip_of_recorded host tree tree' config store r = rw (read_of_recorded host tree config store r)

-- A Stop skips the gate right after a green one, if its record could be made.
pub skip_unchanged :
    (host : Host) (tree : List Source) (config : Config) (store : Store)
    → IsRecorded host tree config store
    → should_skip_gate host tree config (record_green host tree config store) ≡ true
skip_unchanged host tree config store r =
    skip_of_recorded host tree tree config store r ∙ rw r.computed (eq_refl r.hash)

-- A digest that is the recorded one comes from a stream with that digest.
same_stream :
    (h : Hashing) (last : String) (s : Option (List ℕ))
    → same_hash last (digest_of h s) ≡ true
    → (x : List ℕ) × (s ≡ some x) × (h.sha256 x ≡ last)
same_stream h last none e = cc
same_stream h last (some x) e = (x, refl, (eq_iff (h.sha256 x) last).0 e)

digest_parts :
    (h : Hashing) (s : Option (List ℕ)) (hash : String)
    → digest_of h s ≡ some hash
    → (x : List ℕ) × (s ≡ some x) × (h.sha256 x ≡ hash)
digest_parts h none hash e = cc
digest_parts h (some x) hash e = (x, refl, ground arith)

-- A Stop that skips the gate after a green one faces the gated inputs that were green: the same
-- paths with the same bytes, in the same order. This holds for a digest without a collision on the
-- two streams of bytes, and for paths and files that hold no NUL byte.
pub skip_same_inputs :
    (host : Host) (tree tree' : List Source) (config : Config) (store : Store)
    → IsRecorded host tree config store
    → ((x y : List ℕ)
        → stream host.hashing (gated_paths tree config) ≡ some x
        → stream host.hashing (gated_paths tree' config) ≡ some y
        → host.hashing.sha256 x ≡ host.hashing.sha256 y
        → x ≡ y)
    → All (IsPlain host.hashing) (gated_paths tree config)
    → All (IsPlain host.hashing) (gated_paths tree' config)
    → should_skip_gate host tree' config (record_green host tree config store) ≡ true
    → map (seen host.hashing) (gated_paths tree' config)
      ≡ map (seen host.hashing) (gated_paths tree config)
unfolding compute_state_hash
skip_same_inputs host tree tree' config store r no_collision plain plain' skips =
    let (x, e, f) =
      digest_parts host.hashing (stream host.hashing (gated_paths tree config)) r.hash r.computed in
    let (y, e', f') =
      same_stream host.hashing r.hash (stream host.hashing (gated_paths tree' config))
        (sym (skip_of_recorded host tree tree' config store r) ∙ skips) in
    let q : x ≡ y = no_collision x y e e' (f ∙ sym f') in
    stream_injective host.hashing (gated_paths tree' config) (gated_paths tree config) x plain'
      plain (e' ∙ ap some (sym q)) e

-- A Stop skips the gate although the gated inputs have changed, whatever the digest: where one
-- green file's bytes held a NUL and then what the framing writes for a second file, the gate is
-- skipped for the project in which the file is cut at that NUL and the second file exists.
pub skip_ambiguous :
    (host : Host) (tree tree' : List Source) (config : Config) (store : Store)
    (pre rest : List Source) (a b : FilePath) (x y : List ℕ)
    → IsRecorded host tree config store
    → gated_paths tree config
      ≡ pre
        ++ record { path = a; bytes = some (x ++ 0 ∷ (host.hashing.encode (as_posix b) ++ 0 ∷ y)) }
          ∷ rest
    → gated_paths tree' config
      ≡ pre ++ record { path = a; bytes = some x } ∷ record { path = b; bytes = some y } ∷ rest
    → should_skip_gate host tree' config (record_green host tree config store) ≡ true
unfolding compute_state_hash
skip_ambiguous host tree tree' config store pre rest a b x y r one two =
    let same : compute_state_hash host.hashing tree' config
        ≡ compute_state_hash host.hashing tree config =
      rw (one, two)
        (ap (digest_of host.hashing) (sym (stream_ambiguous host.hashing pre rest a b x y))) in
    skip_of_recorded host tree tree' config store r ∙ rw same (rw r.computed (eq_refl r.hash))
