-- ===== src/PathInfo/Laws.antt =====
-- What a caller of the metadata database relies on.
use nix_redox.Base.{Text, Option, none, some, ◌≡◌, arith}
use nix_redox.Base.{ok, if◌then◌else◌}
use nix_redox.Base.Strings.{text_key, text_eq, text_eq_iff}
use nix_redox.Base.BTreeMap
use nix_redox.Base.BTreeMap.{BTreeMap}
use nix_redox.PathInfo.{PathInfo, valid, PathInfoDb}
use nix_redox.PathInfo.{get, register, delete}

module _ (digest : Text → Option Text) where
  -- What `get` returns once a path has been registered: the new metadata for every path with the
  -- same hash, and what was there before for every other path.
  pub get-register :
      (db db' : PathInfoDb) (info : PathInfo) (hash q other : Text)
      → digest info.store_path ≡ some hash
      → digest q ≡ some other
      → register digest db info ≡ ok db'
      → get digest db' q ≡ (if text_eq hash other then ok (some info) else get digest db q)
  unfolding get register
  get-register db db' info hash q other h k e =
      ground (arith, BTreeMap.get-insert hash other (valid info) db.stored, text_eq_iff hash other)

  -- After a deletion no path with the hash is registered, and every other path is untouched.
  pub get-delete :
      (db db' : PathInfoDb) (path hash q other : Text)
      → digest path ≡ some hash
      → digest q ≡ some other
      → delete digest db path ≡ ok db'
      → get digest db' q ≡ (if text_eq hash other then ok none else get digest db q)
  unfolding get delete BTreeMap.contains_key
  get-delete db db' path hash q other h k e =
      ground (arith, BTreeMap.get-remove hash other db.stored, text_eq_iff hash other)

  pub stored-delete :
      (db db' : PathInfoDb) (path hash : Text)
      → digest path ≡ some hash
      → delete digest db path ≡ ok db'
      → (j : Text)
      → BTreeMap.get j db'.stored ≡ (if text_eq hash j then none else BTreeMap.get j db.stored)
  unfolding delete BTreeMap.contains_key
  stored-delete db db' path hash h e j =
      ground (arith, BTreeMap.get-remove hash j db.stored, text_eq_iff hash j)
