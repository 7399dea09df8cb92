-- ===== src/Pager/Journaling/Steps.antt =====
-- The transactions that change pages through `read_page_for_write`, and their journals.
use rustqlite.Base.{
  ℕ, zero, suc, ◌≡◌, ◌≢◌, refl, List, [], ◌∷◌, take, Option, none, some, get_elem?, arith,
}
use rustqlite.Base.Bytes.{All, All-append}
use rustqlite.Error.Action.{Keeps}
use rustqlite.Format.Header.{DbHeader}
use rustqlite.Btree.Ptrmap.{PtrMapType, ptrmap_put}
use rustqlite.Pager.State.{PagerSavepoint, Pager, with_state}
use rustqlite.Pager.Pages.{get_page, with_header_mut}
use rustqlite.Pager.Freelist.{extend, free_page}
use rustqlite.Pager.Savepoint.{
  open_savepoint, drop_savepoint_named, drop_from, release_savepoint, release_at, restore,
  restore_from, roll_back_to, rollback_to_savepoint,
}
use rustqlite.Pager.Transaction.{IsClean-retain}
use rustqlite.Pager.Journaling.{page_numbers, IsSafeSavepoint, IsJournaled, modify_page}
use rustqlite.Pager.Journaling.Changes.{
  get_page-IsJournaled, modify_page-Keeps, ptrmap_put-IsJournaled, free_page-IsJournaled,
  extend-IsJournaled, reheaded,
}

-- Pages are allocated behind the last one: the freelist is empty.
pub data ChangeStep (p : Pager) : Pager → Type 0 where
  gets : (pgno : ℕ) → ChangeStep p (get_page pgno p).0
  modifies : (pgno : ℕ) (change : List ℕ → List ℕ) → ChangeStep p (modify_page pgno change p).0
  extends : (fuel : ℕ) → ChangeStep p (extend fuel p).1
  frees : (pgno : ℕ) → ChangeStep p (free_page pgno p).0
  maps : (pgno : ℕ) (ty : PtrMapType) (parent : ℕ) → ChangeStep p (ptrmap_put pgno ty parent p).0
  changes_header : (f : DbHeader → DbHeader) → ChangeStep p (with_header_mut f p)
  opens_savepoint : (name : List ℕ) → ChangeStep p (open_savepoint name p)
  drops_savepoint : (name : List ℕ) → ChangeStep p (drop_savepoint_named name p).0
  releases : (name : List ℕ) → ChangeStep p (release_savepoint name p).0
  rolls_back_to : (name : List ℕ) → ChangeStep p (rollback_to_savepoint name p).0

pub data ChangeSteps (p : Pager) : Pager → Type 0 where
  unchanged : ChangeSteps p p
  then_change : (q r : Pager) → ChangeSteps p q → ChangeStep q r → ChangeSteps p r

All-take {ℓ κ} : {A : Type ℓ} (P : A → Type κ) (n : ℕ) (xs : List A) → All P xs → All P (take n xs)
All-take P zero xs h = tt
All-take P (suc n) [] h = tt
All-take P (suc n) (x ∷ xs) h = (h.0, All-take P n xs h.1)

All-get_elem? {ℓ κ} :
    {A : Type ℓ} (P : A → Type κ) (n : ℕ) (xs : List A) (x : A)
    → get_elem? xs n ≡ some x
    → All P xs
    → P x
All-get_elem? P n [] x e h = absurd (ground (arith, e))
All-get_elem? P zero (y ∷ xs) x e h = let f : x ≡ y = ground (arith, e) in rw f h.0
All-get_elem? P (suc n) (y ∷ xs) x e h = All-get_elem? P n xs x e h.1

module _ (file : List ℕ) (seed orig page_size : ℕ) (nz : page_size ≢ 0) where
  abbrev J : Pager → Type 0
  J = IsJournaled file seed orig page_size

  -- Another stack, whose savepoints are safe as well.
  restacked :
      (l : List PagerSavepoint) (p : Pager)
      → (j : J p) → All (IsSafeSavepoint orig page_size (page_numbers j.images)) l
      → J (record p { savepoints = l })
  restacked l p j safe = record {
    unsaved = record {
      same_file = j.unsaved.same_file;
      same_size = j.unsaved.same_size;
      clean = j.unsaved.clean;
      sized = j.unsaved.sized;
    };
    images = j.images;
    txn = j.txn;
    running = j.running;
    writing = j.writing;
    journal = j.journal;
    sound = j.sound;
    pre_images = j.pre_images;
    grown = j.grown;
    safe = j.safe;
    safe_savepoints = safe;
  }

  shortened : (n : ℕ) (p : Pager) → J p → J (record p { savepoints = take n p.savepoints })
  shortened n p j =
      restacked (take n p.savepoints) p j (All-take _ n p.savepoints j.safe_savepoints)

  restored :
      (sp : PagerSavepoint) (p : Pager)
      → (j : J p) → IsSafeSavepoint orig page_size (page_numbers j.images) sp
      → J (with_state (restore sp) p)
  restored sp p j safe = record {
    unsaved = record {
      same_file = j.unsaved.same_file;
      same_size = j.unsaved.same_size;
      clean = IsClean-retain file page_size sp.n_orig p.state.cache j.unsaved.clean;
      sized = j.unsaved.sized;
    };
    images = j.images;
    txn = j.txn;
    running = j.running;
    writing = j.writing;
    journal = j.journal;
    sound = j.sound;
    pre_images = j.pre_images;
    grown = safe.0;
    safe = safe.1;
    safe_savepoints = j.safe_savepoints;
  }

  restore_from-IsJournaled :
      (o : Option PagerSavepoint) (n : ℕ) (p : Pager)
      → get_elem? p.savepoints n ≡ o
      → J p
      → J (restore_from o (record p { savepoints = take (suc n) p.savepoints }))
  restore_from-IsJournaled none n p e j = shortened (suc n) p j
  restore_from-IsJournaled (some sp) n p e j =
      shortened (suc n) (with_state (restore sp) p)
        (restored sp p j (All-get_elem? _ n p.savepoints sp e j.safe_savepoints))

  roll_back_to-IsJournaled : (name : List ℕ) (idx : Option ℕ) → Keeps J (roll_back_to name idx)
  roll_back_to-IsJournaled name none p j = j
  roll_back_to-IsJournaled name (some n) p j =
      restore_from-IsJournaled (get_elem? p.savepoints n) n p refl j

  release_at-IsJournaled : (name : List ℕ) (idx : Option ℕ) → Keeps J (release_at name idx)
  release_at-IsJournaled name none p j = j
  release_at-IsJournaled name (some n) p j = shortened n p j

  drop_from-IsJournaled : (idx : Option ℕ) (p : Pager) → J p → J (drop_from idx p).0
  drop_from-IsJournaled none p j = j
  drop_from-IsJournaled (some n) p j = shortened n p j

  ChangeStep-IsJournaled : {p q : Pager} → ChangeStep p q → J p → J q
  unfolding open_savepoint drop_savepoint_named release_savepoint rollback_to_savepoint
  ChangeStep-IsJournaled {p = p} (gets pgno) j =
      get_page-IsJournaled file seed orig page_size nz pgno p j
  ChangeStep-IsJournaled {p = p} (modifies pgno f) j =
      modify_page-Keeps file seed orig page_size nz pgno f p j
  ChangeStep-IsJournaled {p = p} (extends fuel) j =
      extend-IsJournaled file seed orig page_size nz fuel p j
  ChangeStep-IsJournaled {p = p} (frees pgno) j =
      free_page-IsJournaled file seed orig page_size nz pgno p j
  ChangeStep-IsJournaled {p = p} (maps pgno ty parent) j =
      ptrmap_put-IsJournaled file seed orig page_size nz pgno ty parent p j
  ChangeStep-IsJournaled {p = p} (changes_header f) j = reheaded file seed orig page_size nz f p j
  ChangeStep-IsJournaled {p = p} (opens_savepoint name) j =
      restacked _ p j (All-append _ p.savepoints _ j.safe_savepoints ((j.grown, j.safe), tt))
  ChangeStep-IsJournaled {p = p} (drops_savepoint name) j = drop_from-IsJournaled _ p j
  ChangeStep-IsJournaled {p = p} (releases name) j = release_at-IsJournaled name _ p j
  ChangeStep-IsJournaled {p = p} (rolls_back_to name) j = roll_back_to-IsJournaled name _ p j

  pub ChangeSteps-IsJournaled : {p q : Pager} → ChangeSteps p q → J p → J q
  ChangeSteps-IsJournaled unchanged j = j
  ChangeSteps-IsJournaled (then_change q r steps step) j =
      ChangeStep-IsJournaled step (ChangeSteps-IsJournaled steps j)
