-- ===== src/Api/Paths/Resolve.antt =====
-- `GetMerklePathData` (api/file_handler.go) against the steps of a path.
use sequoia.Prelude.{
  true, false, sym, ◌≢◌, Bool-cases, Bool, List, [], ◌∷◌, ◌++◌, ◌≡◌, refl, ◌∙◌, ap, subst,
  append-nil, ◌↔◌, Option, none, some, ◌⊎◌, inl, inr,
}
use sequoia.Prelude.Bytes.{Bytes, bytes_equal, bytes_equal→eq, bytes_equal_refl, codes}
use sequoia.FileSystem.Stores.{Badger, Ipfs, World}
use sequoia.Api.Paths.{
  FileNode, FolderData, PathError, Gateway, find_child, enter, or_invalid, child_of, at_end,
  with_html, or_html, and_then, get_merkle_data, get_merkle_path_data,
}

-- The child is in the list and has the name, and no child before it has.
pub data FirstNamed (name : Bytes) (child : FileNode) : List FileNode → Type 0 where
  at_front : {cs : List FileNode} → child.name ≡ name → FirstNamed name child (child ∷ cs)
  behind :
      {c : FileNode} {cs : List FileNode}
      → c.name ≢ name
      → FirstNamed name child cs
      → FirstNamed name child (c ∷ cs)

find_child-FirstNamed :
    (name : Bytes) (child : FileNode) (cs : List FileNode)
    → find_child name cs ≡ some child
    → FirstNamed name child cs
unfolding find_child
find_child-FirstNamed name child [] h = cc
find_child-FirstNamed name child (c ∷ cs) h = elim (Bool-cases (bytes_equal c.name name)) [
  | inl same ↦
      let h' = rw same at h in
      let found : c ≡ child = cc in
      subst (λ (d : FileNode). FirstNamed name child (d ∷ cs)) (sym found)
        (at_front (ap FileNode.name (sym found) ∙ bytes_equal→eq c.name name same))
  | inr differs ↦
      behind (λ e. let s = bytes_equal_refl name in let d = rw e at differs in cc)
        (find_child-FirstNamed name child cs (rw differs at h))
]

FirstNamed-find_child :
    (name : Bytes) (child : FileNode) (cs : List FileNode)
    → FirstNamed name child cs
    → find_child name cs ≡ some child
unfolding find_child
FirstNamed-find_child name child [] f = elim f [ ]
FirstNamed-find_child name child (c ∷ cs) (at_front e) = rw (e, bytes_equal_refl name) refl
FirstNamed-find_child name child (c ∷ cs) (behind e f) =
    elim (Bool-cases (bytes_equal c.name name)) [
      | inl same ↦ absurd (e (bytes_equal→eq c.name name same))
      | inr differs ↦ rw differs (FirstNamed-find_child name child cs f)
    ]

module _ (b : Badger) (p : Ipfs) (g : Gateway p.Blocks) (w : World b.Db p.Blocks) where
  -- A step by name: the root's data is a folder, and its first child of the name is the next root.
  pub record Step (root name next : Bytes) (child : FileNode) : Type 0 where
    pub data_ : Bytes
    pub folder : FolderData
    pub there : get_merkle_data b p g w root name ≡ inr data_
    pub is_folder : g.folder_data data_ ≡ some folder
    pub first : FirstNamed next child folder.children

  -- The steps of a path, from a root and its name to another.
  pub data Leads : Bytes → Bytes → List Bytes → Bytes → Bytes → Type 0 where
    arrived : {root name : Bytes} → Leads root name [] root name
    onward :
        {root name next root' name' : Bytes} {path : List Bytes} {child : FileNode}
        → Step root name next child
        → Leads child.merkle child.name path root' name'
        → Leads root name (next ∷ path) root' name'

  enter-Step :
      (root name next : Bytes) (child : FileNode)
      → Step root name next child
      → enter b p g next (get_merkle_data b p g w root name) ≡ inr child
  unfolding enter
  enter-Step root name next child s =
      rw (s.there, s.is_folder, FirstNamed-find_child next child s.folder.children s.first) refl

  valid_child :
      (o : Option FileNode) (child : FileNode) → or_invalid b p g o ≡ inr child → o ≡ some child
  valid_child none child h = cc
  valid_child (some c) child h = let same : c ≡ child = cc in ap some same

  child_of-Step :
      (root name next data_ : Bytes) (o : Option FolderData) (child : FileNode)
      → get_merkle_data b p g w root name ≡ inr data_
      → g.folder_data data_ ≡ o
      → child_of b p g next o ≡ inr child
      → Step root name next child
  child_of-Step root name next data_ none child e k h = cc
  child_of-Step root name next data_ (some folder) child e k h = record {
    data_ = data_;
    folder = folder;
    there = e;
    is_folder = k;
    first =
        find_child-FirstNamed next child folder.children
          (valid_child (find_child next folder.children) child h);
  }

  Step-of-enter :
      (root name next : Bytes) (child : FileNode) (r : PathError ⊎ Bytes)
      → get_merkle_data b p g w root name ≡ r
      → enter b p g next r ≡ inr child
      → Step root name next child
  unfolding enter
  Step-of-enter root name next child (inl err) e h = cc
  Step-of-enter root name next child (inr data_) e h =
      child_of-Step root name next data_ (g.folder_data data_) child e refl h

  module _ (current : Bytes) (raw : Bool) where
    -- The data under its name, if it is asked for raw or is no folder, or else the folder's page.
    pub data Shows (root name data_ : Bytes) : Bytes × Bytes → Type 0 where
      as_data : (raw ≡ true) ⊎ (g.folder_data data_ ≡ none) → Shows root name data_ (data_, name)
      as_page :
          {folder : FolderData} {html : Bytes}
          → raw ≡ false
          → g.folder_data data_ ≡ some folder
          → g.generate_html (record folder { merkle = root }) current ≡ some html
          → Shows root name data_ (html, name ++ codes ".html")

    abbrev pub Served : Bytes → Bytes → Bytes × Bytes → Type 0
    Served root name r =
        (data_ : Bytes) × (get_merkle_data b p g w root name ≡ inr data_) × Shows root name data_ r

    -- What is served at the end of the steps.
    abbrev pub Ends : Bytes → Bytes → List Bytes → Bytes × Bytes → Type 0
    Ends root name path r =
        (root' name' : Bytes) × Leads root name path root' name' × Served root' name' r

    page-Shows :
        (root name data_ : Bytes) (r : Bytes × Bytes) (folder : FolderData) (o : Option Bytes)
        → raw ≡ false
        → g.folder_data data_ ≡ some folder
        → g.generate_html (record folder { merkle = root }) current ≡ o
        → with_html b p g name o ≡ inr r
        → Shows root name data_ r
    page-Shows root name data_ r folder none off is html e = cc
    page-Shows root name data_ r folder (some page) off is html e =
        let same : (page, name ++ codes ".html") ≡ r = cc in
        subst (Shows root name data_) same (as_page off is html)

    or_html-Shows :
        (root name data_ : Bytes) (r : Bytes × Bytes) (o : Option FolderData)
        → raw ≡ false
        → g.folder_data data_ ≡ o
        → or_html b p g root name current data_ o ≡ inr r
        → Shows root name data_ r
    or_html-Shows root name data_ r none off is e =
        let same : (data_, name) ≡ r = cc in subst (Shows root name data_) same (as_data (inr is))
    or_html-Shows root name data_ r (some folder) off is e =
        page-Shows root name data_ r folder _ off is refl e

    at_end-Served :
        (root name : Bytes) (r : Bytes × Bytes) (o : PathError ⊎ Bytes)
        → get_merkle_data b p g w root name ≡ o
        → at_end b p g root name current raw o ≡ inr r
        → Served root name r
    unfolding at_end
    at_end-Served root name r (inl err) there e = cc
    at_end-Served root name r (inr data_) there e = elim (Bool-cases raw) [
      | inl on ↦
          let e' = rw on at e in
          let same : (data_, name) ≡ r = cc in
          (data_, there, subst (Shows root name data_) same (as_data (inl on)))
      | inr off ↦ (data_, there, or_html-Shows root name data_ r _ off refl (rw off at e))
    ]

    Shows-at_end :
        (root name data_ : Bytes) (r : Bytes × Bytes)
        → Shows root name data_ r
        → at_end b p g root name current raw (inr data_) ≡ inr r
    unfolding at_end
    Shows-at_end root name data_ _ (as_data (inl on)) = rw on refl
    Shows-at_end root name data_ _ (as_data (inr no_folder)) = elim (Bool-cases raw) [
      | inl on ↦ rw on refl
      | inr off ↦ rw (off, no_folder) refl
    ]
    Shows-at_end root name data_ _ (as_page off is html) = rw (off, is, html) refl

    Served-at_end :
        (root name : Bytes) (r : Bytes × Bytes)
        → Served root name r
        → at_end b p g root name current raw (get_merkle_data b p g w root name) ≡ inr r
    Served-at_end root name r (data_, there, shows) =
        ap (at_end b p g root name current raw) there ∙ Shows-at_end root name data_ r shows

    -- After the steps of the first part of a path, the rest is served as from where they lead.
    pub path_splits :
        (root name root' name' : Bytes) (path rest : List Bytes)
        → Leads root name path root' name'
        → get_merkle_path_data b p g w root (path ++ rest) name current raw
          ≡ get_merkle_path_data b p g w root' rest name' current raw
    unfolding get_merkle_path_data
    path_splits root name root' name' [] rest arrived = refl
    path_splits root name root' name' (next ∷ path) rest (onward s more) =
        ap
          (λ o.
            and_then b p g o
              (λ c. get_merkle_path_data b p g w c.merkle (path ++ rest) c.name current raw))
          (enter-Step root name next _ s)
        ∙ path_splits _ _ root' name' path rest more

    Ends-of_next :
        (root name next : Bytes) (path : List Bytes) (r : Bytes × Bytes) (o : PathError ⊎ FileNode)
        → enter b p g next (get_merkle_data b p g w root name) ≡ o
        → ((child : FileNode)
            → get_merkle_path_data b p g w child.merkle path child.name current raw ≡ inr r
            → Ends child.merkle child.name path r)
        → and_then b p g o (λ c. get_merkle_path_data b p g w c.merkle path c.name current raw)
          ≡ inr r
        → Ends root name (next ∷ path) r
    Ends-of_next root name next path r (inl err) e later h = cc
    Ends-of_next root name next path r (inr child) e later h =
        let (root', name', steps, end) = later child h in
        (root', name', onward (Step-of-enter root name next child _ refl e) steps, end)

    resolved-Ends :
        (root name : Bytes) (path : List Bytes) (r : Bytes × Bytes)
        → get_merkle_path_data b p g w root path name current raw ≡ inr r
        → Ends root name path r
    unfolding get_merkle_path_data
    resolved-Ends root name [] r h = (root, name, arrived, at_end-Served root name r _ refl h)
    resolved-Ends root name (next ∷ path) r h =
        Ends-of_next root name next path r _ refl
          (λ child k. resolved-Ends child.merkle child.name path r k) h

    -- A path is served exactly when its names lead, step by step, through folders and their first
    -- children of that name, to a root whose data can be had; and what is served is that data under its
    -- name, if it is asked for raw or is no folder, or else the page of the folder.
    pub get_merkle_path_data_exact :
        (root name : Bytes) (path : List Bytes) (r : Bytes × Bytes)
        → (get_merkle_path_data b p g w root path name current raw ≡ inr r) ↔ Ends root name path r
    unfolding get_merkle_path_data
    get_merkle_path_data_exact root name path r = (
      resolved-Ends root name path r,
      λ (root', name', steps, end).
          subst (λ q. get_merkle_path_data b p g w root q name current raw ≡ inr r)
            (append-nil path)
            (path_splits root name root' name' path [] steps ∙ Served-at_end root' name' r end),
    )
