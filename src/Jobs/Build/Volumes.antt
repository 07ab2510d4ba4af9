-- ===== src/Jobs/Build/Volumes.antt =====
-- When the volumes, the mounts and the environment of a container fit.
use git_mirror_operator.Base.{
  String, Bool, true, false, not, ◌&&◌, ◌||◌, ◌==◌, if◌then◌else◌, Option, none, some, List, [],
  ◌∷◌, map, ◌≡◌,
}
use git_mirror_operator.Syncenv
use git_mirror_operator.Api.Job.{
  EnvValue, EnvVar, literal, secret_key, VolumeMount, KeyToPath, VolumeSource, secret, config_map,
  empty_dir, Volume, Container,
}

abbrev pub any : {A : Type 0} → (A → Bool) → List A → Bool
any p [] = false
any p (x ∷ xs) = p x || any p xs

abbrev pub all : {A : Type 0} → (A → Bool) → List A → Bool
all p [] = true
all p (x ∷ xs) = p x && all p xs

abbrev pub distinct : List String → Bool
distinct [] = true
distinct (x ∷ xs) = not (any (λ y. x == y) xs) && distinct xs

abbrev pub find_volume : String → List Volume → Option VolumeSource
find_volume name [] = none
find_volume name (v ∷ vs) = if v.name == name then some v.volume_source else find_volume name vs

-- Whether a volume has the file that a mount takes from it; no file is the whole volume.
abbrev pub offers : String → VolumeSource → Bool
offers path (secret _ _ items) = any (λ (i : KeyToPath). i.path == path) items
offers path (config_map _ items _) = any (λ (i : KeyToPath). i.path == path) items
offers path empty_dir = path == ""

abbrev pub backed : List Volume → VolumeMount → Bool
backed volumes mount = elim (find_volume mount.name volumes) [
  | none ↦ false
  | some v ↦ offers mount.sub_path v
]

-- The variables whose values are paths of files.
abbrev pub names_file : String → Bool
names_file name =
    any (λ x. name == x)
      (Syncenv.known_hosts_path
        ∷ Syncenv.endpoint Syncenv.source_prefix Syncenv.suffix_ssh_key_path
        ∷ Syncenv.endpoint Syncenv.source_prefix Syncenv.suffix_github_app_private_key_path
        ∷ Syncenv.endpoint Syncenv.target_prefix Syncenv.suffix_ssh_key_path
        ∷ Syncenv.endpoint Syncenv.target_prefix Syncenv.suffix_github_app_private_key_path
        ∷ [])

abbrev pub mounted : List VolumeMount → EnvValue → Bool
mounted mounts (literal path) = any (λ (v : VolumeMount). path == v.mount_path) mounts
mounted mounts (secret_key _) = false

abbrev pub supplied : List VolumeMount → EnvVar → Bool
supplied mounts v = not (names_file v.name) || mounted mounts v.value

-- The volumes and mounts of a container fit, and the files that its environment names are there.
pub record IsMountable (volumes : List Volume) (c : Container) : Type 0 where
  pub volumes_distinct : distinct (map (λ (v : Volume). v.name) volumes) ≡ true
  pub paths_distinct : distinct (map (λ (v : VolumeMount). v.mount_path) c.volume_mounts) ≡ true
  pub backs : all (backed volumes) c.volume_mounts ≡ true
  pub supplies : all (supplied c.volume_mounts) c.env ≡ true
