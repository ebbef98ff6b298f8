-- ===== src/Examples/Revoking.antt =====
-- The results on revocations, at one grant that is revoked twice.
use standalone_policy_engine.Base.{true, false, none, some, [], ◌≡◌, refl, arith}
use standalone_policy_engine.Base.Text.{txt}
use standalone_policy_engine.Base.Int.{pos}
use standalone_policy_engine.Revocations.Distant.{distant_revocation_lost}
use standalone_policy_engine.Revocations.{
  unix_nano, RevocationRecord, Revocations, load, apply_revocation, is_revoked, cleanup_expired,
}
use standalone_policy_engine.Revocations.InForce.{
  Steps, start, applied, cleaned, asked, revoked_until_expiry,
}
use standalone_policy_engine.Revocations.Merging.{apply_revocation_swap}

abbrev short : RevocationRecord
short = record {
  tenant_id = txt "acme";
  grant_id = txt "g1";
  revoked_at = some (pos 7);
  expires_at = pos 50;
}

abbrev long : RevocationRecord
long = record {
  tenant_id = txt "acme";
  grant_id = txt "g1";
  revoked_at = some (pos 9);
  expires_at = pos 90;
}

abbrev revoked_once : Revocations
revoked_once = (apply_revocation (pos 10) short []).0

short_taken : (apply_revocation (pos 10) short []).1 ≡ true
unfolding apply_revocation
short_taken = refl

abbrev much_later : Revocations
much_later =
    cleanup_expired (unix_nano (pos 40))
      (is_revoked (pos 30) (txt "acme") (txt "g2")
        (apply_revocation (pos 20) long revoked_once).0).0

three-Steps : Steps 45 revoked_once much_later
three-Steps =
    cleaned 40 (omega arith)
      (asked 30 (txt "acme") (txt "g2") (omega arith) (applied (pos 20) long start))

revoked_until_expiry_example : (is_revoked (pos 45) (txt "acme") (txt "g1") much_later).1 ≡ true
revoked_until_expiry_example =
    revoked_until_expiry (pos 10) 45 50 short [] much_later short_taken three-Steps refl
      (omega arith) (omega arith)

apply_revocation_swap_example :
    load
      (apply_revocation (pos 20) long (apply_revocation (pos 10) short []).0).0
      (txt "acme", txt "g1")
    ≡ load
        (apply_revocation (pos 10) short (apply_revocation (pos 20) long []).0).0
        (txt "acme", txt "g1")
apply_revocation_swap_example =
    apply_revocation_swap (pos 10) (pos 20) short long [] (txt "acme", txt "g1")

-- It expires in the year 2300.
abbrev distant : RevocationRecord
distant = record short { expires_at = pos 10413792000000000000 }

no_revocation : load [] (txt "acme", txt "g1") ≡ none
unfolding load
no_revocation = refl

distant_revocation_lost_example :
    ((apply_revocation (pos 10) distant []).1 ≡ true)
    × ((is_revoked (pos 20) (txt "acme") (txt "g1") (apply_revocation (pos 10) distant []).0).1
        ≡ false)
distant_revocation_lost_example =
    distant_revocation_lost 10 20 10413792000000000000 (pos 7) distant [] refl refl refl
      (omega arith) (omega arith) (omega arith) (omega arith) no_revocation
