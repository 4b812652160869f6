-- ===== src/Receipts/Intact.antt =====
-- What a report says of the files of a run.
use borromean_rings.Base.{
  String, ◌≡◌, ◌≢◌, refl, sym, ◌∙◌, ap, Bool, true, false, ◌&&◌, Option, none, some, List, [], ◌∷◌,
  arith, subst,
}
use borromean_rings.Json.{Value, str, real, object, array, int, bool, null, Fields, get}
use borromean_rings.Receipts.{
  Tools, Disk, content_hash_field, verify_receipt, resolve_log_path, recorded_log, run_digest,
  IntegrityReport, Judged, is_tampered, is_unhashed, is_missing_log, raises, is_intact, File,
  sealed_by, judge_hash, judge_text, judge_log, judge_file, Lists, file_under, empty_lists,
  the_report, verify_files, is_empty, report_of, verify_dir,
}

sealed-intact :
    (b : Bool) (o : Option Value) (hash : String)
    → sealed_by b o ≡ is_intact hash
    → (o ≡ some (str hash)) × (b ≡ true)
sealed-intact false o hash h = cc
sealed-intact true none hash h = cc
sealed-intact true (some (str s)) hash h =
    let e : s ≡ hash = ground arith in (ap (λ x. some (str x)) e, refl)
sealed-intact true (some (object fs)) hash h = cc
sealed-intact true (some (real s)) hash h = cc
sealed-intact true (some (array vs)) hash h = cc
sealed-intact true (some (int n)) hash h = cc
sealed-intact true (some (bool b)) hash h = cc
sealed-intact true (some null) hash h = cc

intact-hash :
    (tools : Tools) (receipt : Fields) (log_text : String) (o : Option Value) (hash : String)
    → judge_hash tools receipt log_text o ≡ is_intact hash
    → (o ≡ some (str hash)) × (verify_receipt tools receipt log_text ≡ true)
intact-hash tools receipt log_text none hash h = cc
intact-hash tools receipt log_text (some v) hash h =
    sealed-intact (verify_receipt tools receipt log_text) (some v) hash h

not_good : (a b : Bool) → (a && (false && b)) ≢ true
not_good a b h = ground arith

not_good_last : (a b : Bool) → (a && (b && false)) ≢ true
not_good_last a b h = ground arith

-- The lists of a good report are empty, whichever file was filed last.
abbrev IsGood : Lists → Type 0
IsGood l = (is_empty l.tampered && (is_empty l.unhashed && is_empty l.missing_log)) ≡ true

record Filed (judged : Judged) (before : Option Lists) (after : Lists) : Type 0 where
  rest : Lists
  hash : String
  was : before ≡ some rest
  found : judged ≡ is_intact hash
  is_good : IsGood rest
  now : after.intact_hashes ≡ hash ∷ rest.intact_hashes

some-inj : {A : Type 0} (a b : A) → some a ≡ some b → a ≡ b
some-inj a b h = cc

filed :
    (stem : String) (judged : Judged) (o : Option Lists) (l : Lists)
    → file_under stem judged o ≡ some l
    → IsGood l
    → Filed judged o l
filed stem judged none l h g = cc
filed stem (is_intact hash) (some r) l h g =
    let e = some-inj (record r { intact_hashes = hash ∷ r.intact_hashes }) l h in
    record {
      rest = r;
      hash = hash;
      was = refl;
      found = refl;
      is_good = subst IsGood (sym e) g;
      now = sym (ap (λ (x : Lists). x.intact_hashes) e);
    }
filed stem is_tampered (some r) l h g =
    let g' = subst IsGood (sym (some-inj (record r { tampered = stem ∷ r.tampered }) l h)) g in cc
filed stem is_unhashed (some r) l h g =
    let e = some-inj (record r { unhashed = stem ∷ r.unhashed }) l h in
    absurd (not_good (is_empty r.tampered) (is_empty r.missing_log) (subst IsGood (sym e) g))
filed stem is_missing_log (some r) l h g =
    let e = some-inj (record r { missing_log = stem ∷ r.missing_log }) l h in
    absurd (not_good_last (is_empty r.tampered) (is_empty r.unhashed) (subst IsGood (sym e) g))
filed stem raises (some r) l h g = cc

module _ (tools : Tools) (disk : Disk) (receipt_dir : String) where
  -- A file that holds a receipt whose log is found and read, and verifies against it.
  pub record Verified (value : Option Value) (hash : String) : Type 0 where
    pub receipt : Fields
    pub path : String
    pub log_text : String
    pub is_receipt : value ≡ some (object receipt)
    pub is_found : resolve_log_path disk receipt_dir (recorded_log tools receipt) ≡ some path
    pub is_read : disk.text path ≡ some log_text
    pub has_hash : get content_hash_field receipt ≡ some (str hash)
    pub verifies : verify_receipt tools receipt log_text ≡ true

  intact-text :
      (receipt : Fields) (path : String) (o : Option String) (hash : String)
      → disk.text path ≡ o
      → resolve_log_path disk receipt_dir (recorded_log tools receipt) ≡ some path
      → judge_text tools receipt o ≡ is_intact hash
      → Verified (some (object receipt)) hash
  intact-text receipt path none hash e f h = cc
  intact-text receipt path (some log_text) hash e f h =
      let (p, q) = intact-hash tools receipt log_text (get content_hash_field receipt) hash h in
      record {
        receipt = receipt;
        path = path;
        log_text = log_text;
        is_receipt = refl;
        is_found = f;
        is_read = e;
        has_hash = p;
        verifies = q;
      }

  intact-log :
      (receipt : Fields) (o : Option String) (hash : String)
      → resolve_log_path disk receipt_dir (recorded_log tools receipt) ≡ o
      → judge_log tools disk receipt o ≡ is_intact hash
      → Verified (some (object receipt)) hash
  intact-log receipt none hash f h = cc
  intact-log receipt (some path) hash f h = intact-text receipt path (disk.text path) hash refl f h

  intact-Verified :
      (value : Option Value) (hash : String)
      → judge_file tools disk receipt_dir value ≡ is_intact hash
      → Verified value hash
  unfolding judge_file
  intact-Verified none hash h = cc
  intact-Verified (some (object receipt)) hash h =
      intact-log receipt (resolve_log_path disk receipt_dir (recorded_log tools receipt)) hash refl
        h
  intact-Verified (some (str s)) hash h = cc
  intact-Verified (some (real s)) hash h = cc
  intact-Verified (some (array vs)) hash h = cc
  intact-Verified (some (int n)) hash h = cc
  intact-Verified (some (bool b)) hash h = cc
  intact-Verified (some null) hash h = cc

  -- The files, paired with the hashes of the report's digest, in order.
  abbrev pub Intact : List File → List String → Type 0
  Intact [] [] = Unit
  Intact [] (h ∷ hashes) = ⊥
  Intact (f ∷ files) [] = ⊥
  Intact (f ∷ files) (h ∷ hashes) = Verified f.1 h × Intact files hashes

  files-Intact :
      (files : List File) (l : Lists)
      → verify_files tools disk receipt_dir files ≡ some l
      → IsGood l
      → Intact files l.intact_hashes
  unfolding verify_files
  files-Intact [] l h g =
      subst (λ (x : Lists). Intact [] x.intact_hashes) (some-inj empty_lists l h) tt
  files-Intact ((stem, value) ∷ files) l h g =
      let f =
        filed stem (judge_file tools disk receipt_dir value)
          (verify_files tools disk receipt_dir files) l h g in
      subst (Intact ((stem, value) ∷ files)) (sym f.now)
        (intact-Verified value f.hash f.found, files-Intact files f.rest f.was f.is_good)

  reported :
      (o : Option Lists) (report : IntegrityReport)
      → report_of tools o ≡ some report
      → report.ok ≡ true
      → (l : Lists) × (o ≡ some l) × IsGood l × (report.digest ≡ run_digest tools l.intact_hashes)
  reported none report h ok = cc
  reported (some l) report h ok =
      let e : some (the_report tools l) ≡ some report = h in
      let q = some-inj (the_report tools l) report e in
      (
        l,
        refl,
        ap (λ (x : IntegrityReport). x.ok) q ∙ ok,
        sym (ap (λ (x : IntegrityReport). x.digest) q),
      )

  -- A report that says ok stands for files that are all receipts with a log that is found, read
  -- and matched by the stored hash, and its digest is that of exactly these hashes.
  pub verify_dir-ok :
      (files : List File) (report : IntegrityReport)
      → verify_dir tools disk receipt_dir files ≡ some report
      → report.ok ≡ true
      → (hashes : List String) × Intact files hashes × (report.digest ≡ run_digest tools hashes)
  unfolding verify_dir
  verify_dir-ok files report h ok =
      let (l, e, g, d) = reported (verify_files tools disk receipt_dir files) report h ok in
      (l.intact_hashes, files-Intact files l e g, d)
