-- ===== src/Reservoir/Document/Laws.antt =====
-- What holds of a document beside the lock that it was made or read for.
use leanbun.Base.{
  Bool, true, false, List, [], ◌∷◌, not, ◌||◌, Option, none, some, ok, err, subst, ◌>>◌, >>=-eq-ok,
  reject_if, reject_if-eq-ok, ◌==◌, ==_iff, bytes_equal, ◌≡◌, refl, sym, ap, ◌∙◌, ◌⊎◌, inl, inr,
  Within, arith, lines_of,
}
use leanbun.Base.Ascending.{Ascends, sort_by-IsSorted, Ascends-of_sorted}
use leanbun.Base.TreeMap.{TreeMap, get, insert, get-insert_cases}
use leanbun.Lock.Model
use leanbun.Lock.Model.{Text, Sha256, PackageKey, key_equal, key_ord, ResolvedSource, LockedPackage}
use leanbun.Lock.Text.Encode.{identity}
use leanbun.Lock.Text.Parse.{checked}
use leanbun.Lock.Text.Whole.{Yields, Yields-⇒, not-false}
use leanbun.Reservoir.Binding.{BindingErrorKind, Binding}
use leanbun.Reservoir.Document.{
  Bound, Document, make_document, document_identity, sort_bindings, check_bindings, check_content,
  is_some_of, locked_map, document_to_text, checked_document, read_document, parse_document,
  document_from_text,
}
use leanbun.Reservoir.Document.RoundTrip.{make_document-IsMade}

-- the package has the key and the content facts of the binding
pub record IsBacked (b : Binding) (p : LockedPackage) : Type 0 where
  pub key : p.key ≡ b.key
  pub resolved :
      (subdir : Option Text) × (p.resolved
        ≡ ResolvedSource.git b.resolved_url b.exact_commit subdir)
  pub download_integrity : p.download_integrity ≡ some b.download_integrity
  pub source_tree_sha256 : p.source_tree_sha256 ≡ b.source_tree_sha256
  pub selected_source_identity : p.selected_source_identity ≡ b.selected_source_identity

pub record IsSoundDocument (lock : Model.Lock) (d : Document) : Type 0 where
  pub named : d.lock_v1_identity ≡ identity lock
  pub ascends : Ascends (λ (b : Binding). b.key) d.bindings
  pub backed :
      (b : Binding)
      → Within b d.bindings
      → (p : LockedPackage) × Within p lock.packages × IsBacked b p
  pub identified : d.identity ≡ document_identity d.lock_v1_identity d.bindings

all_agree :
    (p q r s t : Bool)
    → (not p || not q || not r || not s || not t) ≡ false
    → (p ≡ true) × (q ≡ true) × (r ≡ true) × (s ≡ true) × (t ≡ true)
all_agree p q r s t h = (ground arith, ground arith, ground arith, ground arith, ground arith)

is_some_of_lem :
    (o : Option Sha256) (digest : Sha256) → is_some_of o digest ≡ true → o ≡ some digest
unfolding is_some_of
is_some_of_lem none digest h = cc
is_some_of_lem (some d) digest h = ap some ((==_iff d digest).0 h)

check_content-IsBacked :
    (b : Binding) (p : LockedPackage) → p.key ≡ b.key → check_content b p ≡ ok tt → IsBacked b p
unfolding check_content
check_content-IsBacked b p same h = by_source p.resolved refl h
  where
    by_source :
        (s : ResolvedSource)
        → p.resolved ≡ s
        → elim s as (λ _. Bound (Unit {0})) [
          | ResolvedSource.git url revision _ ↦
              reject_if
                (not (url == b.resolved_url)
                  || not (revision == b.exact_commit)
                  || not (is_some_of p.download_integrity b.download_integrity)
                  || not (p.source_tree_sha256 == b.source_tree_sha256)
                  || not (p.selected_source_identity == b.selected_source_identity))
                BindingErrorKind.incompatible_lock
          | ResolvedSource.path_snapshot _ ↦ err BindingErrorKind.incompatible_lock
        ]
          ≡ ok tt
        → IsBacked b p
    by_source (ResolvedSource.git url revision subdir) e t =
        let (at_url, at_commit, at_integrity, at_tree, at_source) =
          all_agree (url == b.resolved_url) (revision == b.exact_commit)
            (is_some_of p.download_integrity b.download_integrity)
            (p.source_tree_sha256 == b.source_tree_sha256)
            (p.selected_source_identity == b.selected_source_identity)
            (reject_if-eq-ok _ BindingErrorKind.incompatible_lock t) in
        let url_is : url ≡ b.resolved_url = (==_iff url b.resolved_url).0 at_url in
        let commit_is : revision ≡ b.exact_commit = (==_iff revision b.exact_commit).0 at_commit in
        record {
          key = same;
          resolved = (subdir, cc);
          download_integrity = is_some_of_lem _ _ at_integrity;
          source_tree_sha256 = (==_iff _ _).0 at_tree;
          selected_source_identity = (==_iff _ _).0 at_source;
        }
    by_source (ResolvedSource.path_snapshot token) e t = cc

pub locked_map-Within :
    (ps : List LockedPackage) (m : TreeMap PackageKey LockedPackage) (k : PackageKey)
    (p : LockedPackage)
    → get k (locked_map ps m) ≡ some p
    → (Within p ps × (p.key ≡ k)) ⊎ (get k m ≡ some p)
unfolding locked_map
locked_map-Within [] m k p e = inr e
locked_map-Within (x ∷ ps) m k p e = elim (locked_map-Within ps (insert x.key x m) k p e) [
  | inl (w, same) ↦ inl (inr w, same)
  | inr here ↦ elim (get-insert_cases x.key k x m here) [
    | inl (same, is) ↦ inl (inl is, ap (λ (y : LockedPackage). y.key) (sym is) ∙ sym same)
    | inr old ↦ inr old
  ]
]

check_bindings-Backed :
    (locked : TreeMap PackageKey LockedPackage) (bs : List Binding)
    → check_bindings locked bs ≡ ok tt
    → (b : Binding) → Within b bs
    → (p : LockedPackage) × (get b.key locked ≡ some p) × (check_content b p ≡ ok tt)
unfolding check_bindings
check_bindings-Backed locked [] h b w = absurd w
check_bindings-Backed locked (x ∷ bs) h b w =
    by_entry (λ rest v. check_bindings-Backed locked bs rest b v) (get x.key locked) refl h w
  where
    by_entry :
        (check_bindings locked bs ≡ ok tt
          → Within b bs
          → (p : LockedPackage) × (get b.key locked ≡ some p) × (check_content b p ≡ ok tt))
        → (o : Option LockedPackage) → get x.key locked ≡ o
        → elim o as (λ _. Bound (Unit {0})) [
          | none ↦ err BindingErrorKind.missing_package
          | some p ↦ check_content x p >> check_bindings locked bs
        ]
          ≡ ok tt
        → Within b (x ∷ bs)
        → (p : LockedPackage) × (get b.key locked ≡ some p) × (check_content b p ≡ ok tt)
    by_entry further none e t v = cc
    by_entry further (some p) e t v =
        let (u, first, rest) = >>=-eq-ok (check_content x p) (λ _. check_bindings locked bs) t in
        elim v [
          | inl same ↦
              subst
                (λ (y : Binding).
                  (q : LockedPackage) × (get y.key locked ≡ some q) × (check_content y q ≡ ok tt))
                same (p, e, first)
          | inr inside ↦ further rest inside
        ]

-- A document that the constructor returns names the lock, has bindings with strictly ascending keys, each
-- with a package of the lock that has its key and its content facts, and is identified by these.
pub make_document-IsSoundDocument :
    (lock : Model.Lock) (bindings : List Binding) (d : Document)
    → make_document lock bindings ≡ ok d
    → IsSoundDocument lock d
unfolding sort_bindings get
make_document-IsSoundDocument lock bindings d h =
    let made = make_document-IsMade lock bindings d h in
    subst (IsSoundDocument lock) made.is (record {
      named = refl;
      ascends =
          Ascends-of_sorted (λ (b : Binding). b.key) (sort_bindings bindings)
            (sort_by-IsSorted (λ (b : Binding). b.key) bindings) made.distinct;
      backed = λ b w.
          let (p, at, agrees) =
            check_bindings-Backed (locked_map lock.packages []) (sort_bindings bindings)
              made.checked_all b w in
          elim (locked_map-Within lock.packages [] b.key p at) [
            | inl (inside, same) ↦ (p, inside, check_content-IsBacked b p same agrees)
            | inr never ↦ cc
          ];
      identified = refl;
    })

-- the end of parse_document returns what the constructor has made
checked_document-eq-ok :
    (made : Bound Document) (expected : Sha256) (d : Document)
    → checked_document made expected ≡ ok d
    → made ≡ ok d
unfolding checked_document
checked_document-eq-ok (err e) expected d h = cc
checked_document-eq-ok (ok a) expected d h = kept (not (a.identity == expected)) h
  where
    kept :
        (test : Bool)
        → (reject_if test BindingErrorKind.digest_mismatch >> ok a) ≡ ok d
        → ◌≡◌ {A = Bound Document} (ok a) (ok d)
    kept true e = cc
    kept false e = e

Yields-checked :
    {A : Type 0} {P : A → Type 0} (made : Bound A)
    → ((a : A) → made ≡ ok a → P a)
    → Yields (checked made) P
Yields-checked {A = A} (ok a) h = record { holds = λ state rest b e. h b (kept b state rest e) }
  where
    kept :
        (b : A) (state rest : List Text)
        → ◌≡◌ {A = Bound (A × List Text)} (ok (a, state)) (ok (b, rest))
        → ◌≡◌ {A = Bound A} (ok a) (ok b)
    kept b state rest e = cc
Yields-checked {A = A} (err x) h = record { holds = λ state rest b e. absurd (failed b rest e) }
  where
    failed : (b : A) (rest : List Text) → ◌≡◌ {A = Bound (A × List Text)} (err x) (ok (b, rest)) → ⊥
    failed b rest e = cc

read_document-Yields : (lock : Model.Lock) → Yields (read_document lock) (IsSoundDocument lock)
unfolding read_document
read_document-Yields lock = Yields-⇒ _ _ (λ _. Yields-⇒ _ _ (λ _. Yields-⇒ _ _ (λ count.
    Yields-⇒ _ _ (λ bindings. Yields-⇒ _ _ (λ expected. Yields-⇒ _ _ (λ _. Yields-⇒ _ _ (λ _.
      Yields-checked (checked_document (make_document lock bindings) expected) (λ d e.
        make_document-IsSoundDocument lock bindings d
          (checked_document-eq-ok (make_document lock bindings) expected d e)))))))))

document_of : (a b : Document) → ◌≡◌ {A = Bound Document} (ok a) (ok b) → a ≡ b
document_of a b e = cc

-- A text that is accepted beside a lock is the canonical text of the document that is read, which names
-- the lock, has bindings with strictly ascending keys, each with a package of the lock that has its key
-- and its content facts, and is identified by these.
pub document_from_text-eq_ok :
    (text : Text) (lock : Model.Lock) (d : Document)
    → document_from_text text lock ≡ ok d
    → (document_to_text d ≡ text) × IsSoundDocument lock d
unfolding document_from_text parse_document
document_from_text-eq_ok text lock d h =
    let (parsed, first, rest) = >>=-eq-ok (parse_document text lock) _ h in
    let (u, tested, same) =
      >>=-eq-ok
        (reject_if (not (document_to_text parsed == text)) BindingErrorKind.non_canonical_text)
        (λ _. ok parsed) rest in
    let ((read, further), taken, is) = >>=-eq-ok (read_document lock (lines_of text)) _ first in
    let sound = (read_document-Yields lock).holds (lines_of text) further read taken in
    let text_is =
      (==_iff (document_to_text parsed) text).0 (not-false _ (reject_if-eq-ok _ _ tested)) in
    subst (λ x. (document_to_text x ≡ text) × IsSoundDocument lock x) (document_of parsed d same)
      (text_is, subst (IsSoundDocument lock) (document_of read parsed is) sound)
