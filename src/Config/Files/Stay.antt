-- ===== src/Config/Files/Stay.antt =====
-- The files of the home directory that a run of `createIfNotExists` or `Init` finds stay.
use sequoia.Prelude.{Bool, true, false, Option, none, some, ◌≡◌, refl, ◌∙◌, ap, ◌⊎◌, inl, inr}
use sequoia.Prelude.Bytes.{Bytes}
use sequoia.Config.Disk.{
  Disk, DiskLaws, FileName, config_file, seed_file, legacy_file, name_of, same_file, Stat, present,
  absent, stat_failed,
}
use sequoia.Config.Files.{HomeError, created, fill, by_stat, create_if_not_exists}

-- Two names are the same file or are not.
pub same_file-cases : (f g : FileName) → (f ≡ g) ⊎ (same_file g f ≡ false)
same_file-cases config_file config_file = inl refl
same_file-cases config_file seed_file = inr refl
same_file-cases config_file legacy_file = inr refl
same_file-cases seed_file config_file = inr refl
same_file-cases seed_file seed_file = inl refl
same_file-cases seed_file legacy_file = inr refl
same_file-cases legacy_file config_file = inr refl
same_file-cases legacy_file seed_file = inr refl
same_file-cases legacy_file legacy_file = inl refl

same_file_refl : (f : FileName) → same_file f f ≡ true
same_file_refl config_file = refl
same_file_refl seed_file = refl
same_file_refl legacy_file = refl

module _ (d : Disk) (law : DiskLaws d) (dir : Bytes) where
  open d use {State, read}

  created_state : (r : State × Bool) (f : FileName) → (created d r f).0 ≡ r.0
  unfolding created
  created_state (s, true) f = refl
  created_state (s, false) f = refl

  read-fill :
      (o : Option State) (s : State) (f g : FileName) (x : Bytes)
      → d.create s dir (name_of f) ≡ o
      → same_file g f ≡ false
      → read (fill d o s dir f x).0 dir (name_of g) ≡ read s dir (name_of g)
  unfolding fill
  read-fill none s f g x e other = refl
  read-fill (some s') s f g x e other =
      rw (created_state (d.write s' dir (name_of f) x) f)
        (law.read-write_other s' dir x f g other ∙ rw other at (law.read-create s s' dir f g e))

  read-by_stat :
      (t : Stat) (s : State) (f g : FileName) (x : Bytes)
      → same_file g f ≡ false
      → read (by_stat d t s dir f x).0 dir (name_of g) ≡ read s dir (name_of g)
  unfolding by_stat
  read-by_stat present s f g x other = refl
  read-by_stat absent s f g x other = read-fill (d.create s dir (name_of f)) s f g x refl other
  read-by_stat stat_failed s f g x other = refl

  -- Another file reads as before.
  pub read-create_other :
      (s : State) (f g : FileName) (x : Bytes)
      → same_file g f ≡ false
      → read (create_if_not_exists d s dir f x).0 dir (name_of g) ≡ read s dir (name_of g)
  unfolding create_if_not_exists
  read-create_other s f g x other = read-by_stat (d.stat s dir (name_of f)) s f g x other

  -- A file that can be read is not created.
  pub create_present :
      (s : State) (f : FileName) (x y : Bytes)
      → read s dir (name_of f) ≡ some y
      → ◌≡◌ {A = State × (HomeError ⊎ Bool)} (create_if_not_exists d s dir f x) (s, inr false)
  unfolding create_if_not_exists by_stat
  create_present s f x y e = rw (law.stat-read s dir f y e) refl

  -- A file that can be read stays as it is, whichever file is to be created.
  pub read-create_if_not_exists :
      (s : State) (f g : FileName) (x y : Bytes)
      → read s dir (name_of g) ≡ some y
      → read (create_if_not_exists d s dir f x).0 dir (name_of g) ≡ some y
  read-create_if_not_exists s f g x y e = elim (same_file-cases f g) [
    | inl same ↦ rw (create_present s f x y (rw same e)) e
    | inr other ↦ read-create_other s f g x other ∙ e
  ]

  created-true :
      (q : State × Bool) (s' : State) (f : FileName)
      → ◌≡◌ {A = State × (HomeError ⊎ Bool)} (created d q f) (s', inr true)
      → ◌≡◌ {A = State × Bool} q (s', true)
  unfolding created
  created-true (s, true) s' f h = cc
  created-true (s, false) s' f h = cc

  read-filled :
      (o : Option State) (s s' : State) (f : FileName) (x : Bytes)
      → d.create s dir (name_of f) ≡ o
      → ◌≡◌ {A = State × (HomeError ⊎ Bool)} (fill d o s dir f x) (s', inr true)
      → read s' dir (name_of f) ≡ some x
  unfolding fill
  read-filled none s s' f x e h = cc
  read-filled (some s1) s s' f x e h =
      let done = created-true (d.write s1 dir (name_of f) x) s' f h in
      rw (ap (λ (q : State × Bool). q.0) done) at (
        law.read-write s1 dir x f (rw same_file_refl at (law.read-create s s1 dir f f e))
          (ap (λ (q : State × Bool). q.1) done))

  read-by_stat_created :
      (t : Stat) (s s' : State) (f : FileName) (x : Bytes)
      → ◌≡◌ {A = State × (HomeError ⊎ Bool)} (by_stat d t s dir f x) (s', inr true)
      → read s' dir (name_of f) ≡ some x
  unfolding by_stat
  read-by_stat_created present s s' f x h = cc
  read-by_stat_created stat_failed s s' f x h = cc
  read-by_stat_created absent s s' f x h = read-filled (d.create s dir (name_of f)) s s' f x refl h

  -- A file that was created holds its contents.
  pub read_created :
      (s s' : State) (f : FileName) (x : Bytes)
      → ◌≡◌ {A = State × (HomeError ⊎ Bool)} (create_if_not_exists d s dir f x) (s', inr true)
      → read s' dir (name_of f) ≡ some x
  unfolding create_if_not_exists
  read_created s s' f x h = read-by_stat_created (d.stat s dir (name_of f)) s s' f x h
