-- ===== src/Controller/Lease/Names.antt =====
-- internal/controller/gitmirror_controller.go: the name of a repository's lease, `SyncLeaseName`.
use text.Mathlib.TextLemmas.{cons-append}
use git_mirror_operator.Base.{String, ◌<>◌, ◌≡◌, refl, true}
use git_mirror_operator.Text.{all_chars, map_chars, trim_left, trim, head_is, to_lower}
use git_mirror_operator.Text.Laws.{
  all_chars-map, all_chars-trim_left, all_chars-trim_right, head_is-trim_right,
}
use git_mirror_operator.Api.Mirror.{GitMirror}
use git_mirror_operator.Platform.{Platform, IsFaithful}
use git_mirror_operator.Jobs.Names.{is_dns_char, is_dash, dns_char}
use git_mirror_operator.Jobs.Names.Hashed.{IsDnsLabel, is_dns_alnum, len-short_hash}
use git_mirror_operator.Jobs.Names.Objects.{dns_char-is_dns, dash_spares, short_name, named}
use git_mirror_operator.Controller.Lease.{dns_label, sync_lease_name}

module _ (P : Platform) (F : IsFaithful P) where
  dns_label-chars : (s : String) → all_chars is_dns_char (dns_label P s) ≡ true
  unfolding dns_label trim
  dns_label-chars s =
      let lowered = map_chars dns_char (to_lower P.fold_lower s) in
      all_chars-trim_right is_dns_char is_dash (trim_left is_dash (trim_left is_dash lowered)) (
        all_chars-trim_left is_dns_char is_dash (trim_left is_dash lowered) (
          all_chars-trim_left is_dns_char is_dash lowered
            (all_chars-map is_dns_char dns_char dns_char-is_dns (to_lower P.fold_lower s))))

  dns_label-head : (s : String) → head_is is_dns_alnum (dns_label P ("gitmirror-" <> s)) ≡ true
  unfolding dns_label trim map_chars to_lower trim_left
  dns_label-head s =
      let e : ("gitmirror-" <> s) ≡ String.◌∷◌ "g" ("itmirror-" <> s) =
        cons-append "g" "itmirror-" s in
      let lowered = map_chars dns_char (to_lower P.fold_lower ("gitmirror-" <> s)) in
      head_is-trim_right is_dns_alnum is_dash dash_spares
        (trim_left is_dash (trim_left is_dash lowered)) (rw e refl)

  -- The lease's name is a DNS label: 1 to 63 bytes, lower-case letters, digits and dashes, a
  -- letter or digit at both ends.
  pub sync_lease_name-IsDnsLabel : (m : GitMirror) → IsDnsLabel (sync_lease_name P m)
  unfolding sync_lease_name short_name
  sync_lease_name-IsDnsLabel m =
      let owner = m.spec.github.owner in
      let repo = m.spec.github.repo in
      let text = m.namespace <> "/" <> m.spec.provider <> "/" <> owner <> "/" <> repo in
      rw (len-short_hash P F text) (
        named P F (dns_label P ("gitmirror-" <> owner <> "-" <> repo)) text
          (dns_label-head (owner <> "-" <> repo))
          (dns_label-chars ("gitmirror-" <> owner <> "-" <> repo)))
