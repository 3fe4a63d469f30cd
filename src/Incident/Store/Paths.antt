-- ===== src/Incident/Store/Paths.antt =====
-- Paths of incident files: equality, and what a write or a removal does to a later read.
use health_monitor_sre_engin.Common.{
  String, true, none, some, [], ◌∷◌, ◌≡◌, ◌↔◌, refl, if◌then◌else◌, eq_iff, arith,
}
use health_monitor_sre_engin.Incident.Store.{
  FilePath, partition, root, get_path, path_eq, File, Files, file_at, put_file, remove_file,
}

-- the id that a path is made from
abbrev pub path_id : FilePath → String
path_id (partition y m a) = a
path_id (root a) = a

pub path_id-get_path : (id : String) → path_id (get_path id) ≡ id
unfolding get_path
path_id-get_path id = ground arith

pub path_eq_iff : (p q : FilePath) → (path_eq p q ≡ true) ↔ (p ≡ q)
path_eq_iff (partition y m a) (partition y' m' b) =
    ground (arith, eq_iff y y', eq_iff m m', eq_iff a b)
path_eq_iff (root a) (root b) = ground (arith, eq_iff a b)
path_eq_iff (partition y m a) (root b) = ground arith
path_eq_iff (root a) (partition y m b) = ground arith

pub file_at-put_file :
    (p q : FilePath) (f : File) (fs : Files)
    → file_at q (put_file p f fs) ≡ (if path_eq p q then some f else file_at q fs)
unfolding file_at put_file
file_at-put_file p q f [] = refl
file_at-put_file p q f ((r, g) ∷ fs) =
    ground (arith, path_eq_iff p q, path_eq_iff r p, path_eq_iff r q, file_at-put_file p q f fs)

pub file_at-remove_file :
    (p q : FilePath) (fs : Files)
    → file_at q (remove_file p fs) ≡ (if path_eq p q then none else file_at q fs)
unfolding file_at remove_file
file_at-remove_file p q [] = ground arith
file_at-remove_file p q ((r, g) ∷ fs) =
    ground (arith, path_eq_iff p q, path_eq_iff r p, path_eq_iff r q, file_at-remove_file p q fs)
