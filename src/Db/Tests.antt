-- ===== src/Db/Tests.antt =====
-- A concrete table of sessions of internal/db.
use air_fi.Base.{◌≡◌, none, List, [], ◌∷◌}
use air_fi.Base.Int.{pos, ◌+ℤ◌}
use air_fi.Db.{Session, open_new}
use air_fi.Db.View.{
  Statement, creates, sets_balance, cleans_up, view, exec_all, apply_all, exec_all-apply_all,
}

abbrev row : Session
row = record {
  id = "s";
  wallet_id = "w";
  channel_id = "c";
  guest_address = "g";
  host_address = "h";
  funding_ckb = pos 1500;
  balance_ckb = pos 500;
  spent_ckb = pos 0;
  created_at = pos 0;
  expires_at = pos 100;
  status = "active";
  settled_at = none;
  mac_address = "";
  ip_address = "";
}

abbrev statements : List Statement
statements = creates row ∷ creates row ∷ sets_balance "s" (pos 0) (pos 500) ∷ cleans_up ∷ []

exec_all-apply_all_example :
    view (exec_all (λ t m. t +ℤ m) statements open_new)
    ≡ apply_all (λ t m. t +ℤ m) statements (view open_new)
exec_all-apply_all_example = exec_all-apply_all (λ t m. t +ℤ m) statements open_new
