-- ===== src/Receipts/Sealed.antt =====
-- That a finalized receipt verifies.
use Prim.Native.String.{◌++◌ as text_append}
use borromean_rings.Base.{
  String, ◌≡◌, ◌≢◌, refl, ap, true, some, ◌==◌, arith, eq_iff, eq_refl, Bool-cases, inl, inr, subst,
}
use borromean_rings.Json.{Value, str, Fields, member, no_members, get}
use borromean_rings.Receipts.{
  Tools, content_hash_field, without_hash, add_last, compute_content_hash, finalize_receipt,
  matches, verify_receipt,
}

get-add_last :
    (core : Fields) (v : Value)
    → get content_hash_field (add_last (without_hash core) content_hash_field v) ≡ some v
unfolding without_hash add_last
get-add_last no_members v = refl
get-add_last (member k w core) v = elim (Bool-cases (k == content_hash_field)) [
  | inl e ↦ rw e (get-add_last core v)
  | inr e ↦ rw (e, e) (get-add_last core v)
]

without_hash-add_last :
    (core : Fields) (v : Value)
    → without_hash (add_last (without_hash core) content_hash_field v) ≡ without_hash core
unfolding without_hash add_last
without_hash-add_last no_members v = refl
without_hash-add_last (member k w core) v = elim (Bool-cases (k == content_hash_field)) [
  | inl e ↦ rw e (without_hash-add_last core v)
  | inr e ↦ rw (e, e) (ap (member k w) (without_hash-add_last core v))
]

without_hash_twice : (core : Fields) → without_hash (without_hash core) ≡ without_hash core
unfolding without_hash
without_hash_twice no_members = refl
without_hash_twice (member k w core) = elim (Bool-cases (k == content_hash_field)) [
  | inl e ↦ rw e (without_hash_twice core)
  | inr e ↦ rw (e, e) (ap (member k w) (without_hash_twice core))
]

matches_self : (digest : String) → digest ≢ "" → matches (some (str digest)) digest ≡ true
matches_self digest h = ground (arith, h, eq_iff digest "", eq_refl digest)

sealed :
    (tools : Tools) (receipt : Fields) (log_text digest : String)
    → digest ≡ compute_content_hash tools receipt log_text
    → digest ≢ ""
    → verify_receipt tools
        (add_last (without_hash receipt) content_hash_field (str digest))
        log_text
      ≡ true
unfolding verify_receipt compute_content_hash
sealed tools receipt log_text digest e h =
    rw
      (
        get-add_last receipt (str digest),
        compute_content_hash,
        without_hash-add_last receipt (str digest),
      )
      (subst (λ d. matches (some (str digest)) d ≡ true) e (matches_self digest h))

compute-without_hash :
    (tools : Tools) (receipt : Fields) (log_text : String)
    → compute_content_hash tools (without_hash receipt) log_text
      ≡ compute_content_hash tools receipt log_text
unfolding compute_content_hash
compute-without_hash tools receipt log_text =
    rw (compute_content_hash, without_hash_twice receipt) refl

hash-nonempty :
    (tools : Tools) (receipt : Fields) (log_text : String)
    → ((s : String) → tools.sha256 s ≢ "")
    → compute_content_hash tools (without_hash receipt) log_text ≢ ""
unfolding compute_content_hash
hash-nonempty tools receipt log_text h = h (
    text_append (tools.canonical (without_hash (without_hash receipt)))
      (text_append "\n" (tools.sha256 log_text)))

-- A receipt that was finalized with a log verifies against that log, whatever hash it had before,
-- for a digest that is never the empty text.
pub verify_receipt-finalize_receipt :
    (tools : Tools) (receipt : Fields) (log_text : String)
    → ((s : String) → tools.sha256 s ≢ "")
    → verify_receipt tools (finalize_receipt tools receipt log_text) log_text ≡ true
unfolding finalize_receipt
verify_receipt-finalize_receipt tools receipt log_text h =
    sealed tools receipt log_text (compute_content_hash tools (without_hash receipt) log_text)
      (compute-without_hash tools receipt log_text) (hash-nonempty tools receipt log_text h)
