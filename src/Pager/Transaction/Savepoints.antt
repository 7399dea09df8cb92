-- ===== src/Pager/Transaction/Savepoints.antt =====
-- A rollback to a savepoint brings back the pages of when the savepoint was opened.
use rustqlite.Base.{
  ℕ, suc, ◌≡◌, refl, ap, sym, ◌∙◌, List, [], ◌∷◌, ◌++◌, take, Option, some, get_elem?, Bool, arith,
  Bool-cases, Option-cases, inl, inr,
}
use rustqlite.Error.{ok}
use rustqlite.Pager.State.{PagerSavepoint, Pager, with_state}
use rustqlite.Pager.Pages.{get_page}
use rustqlite.Pager.Savepoint.{
  position, eq_ignore_ascii_case, open_savepoint, savepoint_index, restore, restore_from,
  roll_back_to, rollback_to_savepoint,
}
use rustqlite.Pager.Transaction.{IsUnsaved, IsClean-retain}
use rustqlite.Pager.Transaction.Preserved.{open_savepoint-IsUnsaved}
use rustqlite.Pager.Transaction.Reads.{page_view, get_page_view, IsClean-eq}
use rustqlite.Pager.Transaction.Steps.{Steps}
use rustqlite.Pager.Transaction.Rollback.{Steps-IsUnsaved}

-- What `open_savepoint` records.
abbrev pub savepoint_of : List ℕ → Pager → PagerSavepoint
savepoint_of name p = record {
  name = name;
  n_orig = p.state.page_count;
  dirty_snapshot = p.state.dirty;
}

view_of_unsaved :
    (file : List ℕ) (page_size count : ℕ) (p : Pager) (pgno : ℕ)
    → IsUnsaved file page_size count p
    → (get_page pgno p).1 ≡ page_view file page_size p.state.page_count p.state.dirty pgno
view_of_unsaved file n c p pgno h =
    get_page_view p pgno
      (IsClean-eq p.disk.database file p.page_size n p.state.cache h.same_file h.same_size h.clean)
    ∙ (λ i. page_view (h.same_file i) (h.same_size i) p.state.page_count p.state.dirty pgno)

roll_back_to-restores :
    (name : List ℕ) (idx : Option ℕ) (i : ℕ) (sp : PagerSavepoint) (p : Pager)
    → idx ≡ some i
    → get_elem? p.savepoints i ≡ some sp
    → roll_back_to name idx p
      ≡ (with_state (restore sp) (record p { savepoints = take (suc i) p.savepoints }), ok tt)
roll_back_to-restores name idx i sp p e f =
    rw e (ap (λ o. (restore_from o (record p { savepoints = take (suc i) p.savepoints }), ok tt)) f)

-- Between opening a savepoint and rolling back to it there may be any operations of the transaction
-- that leave it on the stack: every page then reads as when it was opened, the page count is that of
-- then, and the savepoint stays the innermost one.
pub rollback_to_savepoint_lem :
    (file : List ℕ) (page_size count : ℕ) (p q : Pager) (name called : List ℕ) (idx : ℕ)
    → IsUnsaved file page_size count p
    → Steps (open_savepoint name p) q
    → savepoint_index q called ≡ some idx
    → get_elem? q.savepoints idx ≡ some (savepoint_of name p)
    → ((rollback_to_savepoint called q).1 ≡ ok tt)
      × ((rollback_to_savepoint called q).0.savepoints ≡ take (suc idx) q.savepoints)
      × ((rollback_to_savepoint called q).0.state.page_count ≡ p.state.page_count)
      × ((pgno : ℕ) → (get_page pgno (rollback_to_savepoint called q).0).1 ≡ (get_page pgno p).1)
unfolding rollback_to_savepoint
rollback_to_savepoint_lem file n c p q name called idx h steps found there =
    let back : Pager =
      with_state (restore (savepoint_of name p))
        (record q { savepoints = take (suc idx) q.savepoints }) in
    let e =
      roll_back_to-restores called (savepoint_index q called) idx (savepoint_of name p) q found
        there in
    let u = Steps-IsUnsaved file n c steps (open_savepoint-IsUnsaved file n c name p h) in
    let kept : IsUnsaved file n c back = record {
      same_file = u.same_file;
      same_size = u.same_size;
      clean = IsClean-retain file n p.state.page_count q.state.cache u.clean;
      sized = u.sized;
    } in
    rw e (
      refl,
      refl,
      refl,
      λ pgno. view_of_unsaved file n c back pgno kept ∙ sym (view_of_unsaved file n c p pgno h),
    )

position-append {ℓ} :
    {A : Type ℓ} (test : A → Bool) (xs ys : List A) (i : ℕ)
    → position test xs ≡ some i
    → position test (xs ++ ys) ≡ some i
position-append test [] ys i found = absurd (ground (arith, found))
position-append test (x ∷ xs) ys i found = elim (Bool-cases (test x)) [
  | inl here ↦ ground (arith, here, found)
  | inr later ↦ elim (Option-cases (position test xs)) [
    | inl missing ↦ ground (arith, later, missing, found)
    | inr (k, at) ↦ ground (arith, later, at, found, position-append test xs ys k at)
  ]
]

-- A savepoint that is found stays found when more are opened, also under the same name: `ROLLBACK TO`
-- and `RELEASE` go to the outermost savepoint of a name.
pub savepoint_index-open_savepoint :
    (p : Pager) (name other : List ℕ) (i : ℕ)
    → savepoint_index p name ≡ some i
    → savepoint_index (open_savepoint other p) name ≡ some i
unfolding savepoint_index open_savepoint
savepoint_index-open_savepoint p name other i found =
    position-append (λ s. eq_ignore_ascii_case s.name name) p.savepoints _ i found
