-- ===== src/Gateway/Versions/Tests.antt =====
-- Versions and offers, and the theorems at concrete inputs.
use cron_compose.Prelude.{bytes_eq, ◌≡◌, refl, true, [], ◌∷◌, some}
use cron_compose.Prelude.Text.{codes}
use cron_compose.Prelude.Map.{get}
use cron_compose.Prelude.Strings.{
  is_space, trim, trim_left_by, trim_right_by, cons_kept, strip_prefix, split,
}
use cron_compose.Gateway.Versions.Offer.{Offers, update_for-Offers}
use cron_compose.Gateway.Versions.{
  UpdatePolicy, UpdateAgent, normalize_version, versions_equal, release_part, segment_value,
  parse_version_parts, newer_parts, version_newer, active, source, checksum_for, platform_target,
  url_for, replace_all, update_for,
}

newer_by_number : version_newer (codes "v1.9.3") (codes "1.10.0-rc1") ≡ true
unfolding version_newer normalize_version parse_version_parts newer_parts trim trim_left_by
    trim_right_by cons_kept strip_prefix split release_part segment_value is_space
newer_by_number = refl

abbrev policy : UpdatePolicy
policy = record {
  version = codes "1.2.0";
  url_template = codes "u/{version}/{target}";
  repo = [];
  checksums = (codes "linux/amd64", codes "ab") ∷ [];
  restart = true;
}

abbrev download : UpdateAgent
download = record {
  target_version = codes "1.2.0";
  download_url = codes "u/1.2.0/linux-amd64";
  sha256 = codes "ab";
  restart = true;
}

offered : update_for policy (codes "v1.1.0") (codes "linux") (codes "amd64") ≡ some download
unfolding update_for active source versions_equal normalize_version checksum_for url_for replace_all
    platform_target trim trim_left_by trim_right_by cons_kept strip_prefix is_space get
offered = refl

update_for-Offers_example : Offers policy (codes "v1.1.0") (codes "linux") (codes "amd64") download
update_for-Offers_example =
    update_for-Offers policy (codes "v1.1.0") (codes "linux") (codes "amd64") download offered
