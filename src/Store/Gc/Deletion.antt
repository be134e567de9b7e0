-- ===== src/Store/Gc/Deletion.antt =====
-- What one deletion of the sweep changes, and what it leaves alone.
use nix_redox.Base.{Text, false, Option, none, some, List, ◌∷◌, ◌≡◌, refl, ◌≢◌, ap, ◌∙◌, arith}
use nix_redox.Base.{ok, err, if◌then◌else◌, Option-cases, Result-cases, inl, inr}
use nix_redox.Base.Strings.{text_key, text_eq, text_eq_iff}
use nix_redox.Base.BTreeMap
use nix_redox.PathInfo
use nix_redox.PathInfo.{PathInfoDb, PathInfoError, InfoFile}
use nix_redox.PathInfo.Laws.{stored-delete}
use nix_redox.Store.Gc.{
  sweep, count_deleted, path_size, GcStats, Machine, GcError, metadata, remove_from_disk,
  delete_path, exists, DiskNode,
}

-- What a removal that succeeds leaves of a path: a link that leads nowhere, and nothing else.
pub left : Machine → Option DiskNode → Option DiskNode
left m none = none
left m (some node) = if exists m node then none else some node

left-none :
    (m : Machine) (found : Option DiskNode)
    → ((node : DiskNode) → found ≡ some node → node.link ≡ none)
    → left m found ≡ none
unfolding left exists
left-none m none h = refl
left-none m (some node) h = rw (h node refl, exists) refl

left-some :
    (m : Machine) (found : Option DiskNode) (node : DiskNode)
    → left m found ≡ some node
    → found ≡ some node
unfolding left
left-some m none node e = e
left-some m (some x) node e = ground arith

left-empty : (m : Machine) (found : Option DiskNode) → found ≡ none → left m found ≡ none
unfolding left
left-empty m none e = refl
left-empty m (some x) e = absurd (ground arith)

-- Nothing of the machine is new: what is bound after was bound so before.
pub record Shrinks (m m' : Machine) : Type 0 where
  pub files : (j : Text) → BTreeMap.get j m.db.stored ≡ none → BTreeMap.get j m'.db.stored ≡ none
  pub nodes : (q : Text) → BTreeMap.get q m.disk ≡ none → BTreeMap.get q m'.disk ≡ none
  pub bound :
      (q : Text) (node : DiskNode)
      → BTreeMap.get q m'.disk ≡ some node
      → BTreeMap.get q m.disk ≡ some node

module _ (digest : Text → Option Text) where
  remove_from_disk-get :
      (m m' : Machine) (path q : Text)
      → remove_from_disk m path ≡ ok m'
      → (m'.db ≡ m.db)
        × (BTreeMap.get q m'.disk
            ≡ (if text_eq path q then left m (BTreeMap.get q m.disk) else BTreeMap.get q m.disk))
  unfolding remove_from_disk left
  remove_from_disk-get m m' path q e =
      ground (arith, BTreeMap.get-remove path q m.disk, text_eq_iff path q)

  remove_from_disk-none :
      (m m' : Machine) (path q : Text)
      → remove_from_disk m path ≡ ok m'
      → BTreeMap.get q m.disk ≡ none
      → BTreeMap.get q m'.disk ≡ none
  remove_from_disk-none m m' path q e n =
      ground (arith, remove_from_disk-get m m' path q e, left-empty m (BTreeMap.get q m.disk))

  remove_from_disk-some :
      (m m' : Machine) (path q : Text) (node : DiskNode)
      → remove_from_disk m path ≡ ok m'
      → BTreeMap.get q m'.disk ≡ some node
      → BTreeMap.get q m.disk ≡ some node
  remove_from_disk-some m m' path q node e b =
      ground (arith, remove_from_disk-get m m' path q e, left-some m (BTreeMap.get q m.disk) node)

  disk_fails :
      (m : Machine) (path : Text) {e : GcError}
      → remove_from_disk m path ≡ err e
      → delete_path digest m path ≡ (err e, m)
  unfolding delete_path
  disk_fails m path r = rw (r, delete_path)

  metadata_fails :
      (m m' : Machine) (path : Text) {e : PathInfoError}
      → remove_from_disk m path ≡ ok m'
      → PathInfo.delete digest m'.db path ≡ err e
      → delete_path digest m path ≡ (err (metadata e), m')
  unfolding delete_path
  metadata_fails m m' path r d = rw (r, delete_path) (rw (d, delete_path))

  succeeds :
      (m m' : Machine) (db' : PathInfoDb) (path : Text)
      → remove_from_disk m path ≡ ok m'
      → PathInfo.delete digest m'.db path ≡ ok db'
      → delete_path digest m path ≡ (ok tt, record m' { db = db' })
  unfolding delete_path
  succeeds m m' db' path r d = rw (r, delete_path) (rw (d, delete_path))

  -- A deletion leaves every other path on disk, whether it succeeds or not.
  pub delete_path-disk :
      (m : Machine) (path q : Text)
      → text_eq path q ≡ false
      → BTreeMap.get q (delete_path digest m path).1.disk ≡ BTreeMap.get q m.disk
  delete_path-disk m path q n = elim (Result-cases (remove_from_disk m path)) [
    | inr (e, r) ↦ rw (disk_fails m path r)
    | inl (m', r) ↦ elim (Result-cases (PathInfo.delete digest m'.db path)) [
      | inr (e, d) ↦
          rw (metadata_fails m m' path r d) (ground (arith, remove_from_disk-get m m' path q r))
      | inl (db', d) ↦
          rw (succeeds m m' db' path r d) (ground (arith, remove_from_disk-get m m' path q r))
    ]
  ]

  delete-file :
      (db db' : PathInfoDb) (path hash : Text)
      → digest path ≢ some hash
      → PathInfo.delete digest db path ≡ ok db'
      → BTreeMap.get hash db'.stored ≡ BTreeMap.get hash db.stored
  delete-file db db' path hash n e = elim (Option-cases (digest path)) [
    | inl h ↦ absurd (unfold PathInfo.delete in ground arith)
    | inr (own, h) ↦
        ground (arith, stored-delete digest db db' path own h e hash, text_eq_iff own hash)
  ]

  -- A deletion leaves the metadata file of every other hash, whether it succeeds or not.
  pub delete_path-file :
      (m : Machine) (path hash : Text)
      → digest path ≢ some hash
      → BTreeMap.get hash (delete_path digest m path).1.db.stored ≡ BTreeMap.get hash m.db.stored
  delete_path-file m path hash n = elim (Result-cases (remove_from_disk m path)) [
    | inr (e, r) ↦ rw (disk_fails m path r)
    | inl (m', r) ↦
        let same : m'.db ≡ m.db = (remove_from_disk-get m m' path path r).0 in
        elim (Result-cases (PathInfo.delete digest m'.db path)) [
          | inr (e, d) ↦
              rw (metadata_fails m m' path r d)
                (ap (λ (db : PathInfoDb). BTreeMap.get hash db.stored) same)
          | inl (db', d) ↦ rw (succeeds m m' db' path r d) (
              delete-file m'.db db' path hash n d
              ∙ ap (λ (db : PathInfoDb). BTreeMap.get hash db.stored) same)
        ]
  ]

  -- After a deletion that succeeds a path that is no link is neither on disk nor registered.
  pub delete_path-done :
      (m : Machine) (path hash : Text)
      → ((node : DiskNode) → BTreeMap.get path m.disk ≡ some node → node.link ≡ none)
      → digest path ≡ some hash
      → (delete_path digest m path).0 ≡ ok tt
      → (BTreeMap.get path (delete_path digest m path).1.disk ≡ none)
        × (BTreeMap.get hash (delete_path digest m path).1.db.stored ≡ none)
  delete_path-done m path hash k h = elim (Result-cases (remove_from_disk m path)) [
    | inr (e, r) ↦ rw (disk_fails m path r) (λ c. absurd (ground arith))
    | inl (m', r) ↦ elim (Result-cases (PathInfo.delete digest m'.db path)) [
      | inr (e, d) ↦ rw (metadata_fails m m' path r d) (λ c. absurd (ground arith))
      | inl (db', d) ↦ rw (succeeds m m' db' path r d) (λ c. (
        ground (
          arith,
          remove_from_disk-get m m' path path r,
          text_eq_iff path path,
          left-none m (BTreeMap.get path m.disk) k,
        ),
        ground (arith, stored-delete digest m'.db db' path hash h d hash, text_eq_iff hash hash),
      ))
    ]
  ]

  delete-none :
      (db db' : PathInfoDb) (path hash : Text)
      → PathInfo.delete digest db path ≡ ok db'
      → BTreeMap.get hash db.stored ≡ none
      → BTreeMap.get hash db'.stored ≡ none
  delete-none db db' path hash e n = elim (Option-cases (digest path)) [
    | inl h ↦ absurd (unfold PathInfo.delete in ground arith)
    | inr (own, h) ↦ ground (arith, stored-delete digest db db' path own h e hash)
  ]

  -- A deletion adds nothing.
  pub delete_path-Shrinks : (m : Machine) (path : Text) → Shrinks m (delete_path digest m path).1
  delete_path-Shrinks m path = elim (Result-cases (remove_from_disk m path)) [
    | inr (e, r) ↦
        rw (disk_fails m path r)
          (record { files = λ j n. n; nodes = λ q n. n; bound = λ q node b. b })
    | inl (m', r) ↦
        let same : m'.db ≡ m.db = (remove_from_disk-get m m' path path r).0 in
        elim (Result-cases (PathInfo.delete digest m'.db path)) [
          | inr (e, d) ↦ rw (metadata_fails m m' path r d) (record {
            files = λ j n. ap (λ (db : PathInfoDb). BTreeMap.get j db.stored) same ∙ n;
            nodes = λ q n. remove_from_disk-none m m' path q r n;
            bound = λ q node b. remove_from_disk-some m m' path q node r b;
          })
          | inl (db', d) ↦ rw (succeeds m m' db' path r d) (record {
            files = λ j n.
                delete-none m'.db db' path j d
                  (ap (λ (db : PathInfoDb). BTreeMap.get j db.stored) same ∙ n);
            nodes = λ q n. remove_from_disk-none m m' path q r n;
            bound = λ q node b. remove_from_disk-some m m' path q node r b;
          })
        ]
  ]

  -- One round of the sweep, on each of its branches.
  pub sweep_fails :
      (m : Machine) (stats : GcStats) (path : Text) (dead : List Text) {e : GcError}
      → (delete_path digest m path).0 ≡ err e
      → sweep digest false m stats (path ∷ dead) ≡ (err e, (delete_path digest m path).1)
  unfolding sweep
  sweep_fails m stats path dead r = rw (r, sweep)

  pub sweep_goes :
      (m : Machine) (stats : GcStats) (path : Text) (dead : List Text) {u : Unit {0}}
      → (delete_path digest m path).0 ≡ ok u
      → sweep digest false m stats (path ∷ dead)
        ≡ sweep digest false
            (delete_path digest m path).1
            (count_deleted stats (path_size m path))
            dead
  unfolding sweep
  sweep_goes m stats path dead r = rw (r, sweep)
