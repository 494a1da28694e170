-- ===== src/Graph/Query/Order.antt =====
-- The order of call sites (internal/graph/query.go) is total and transitive.
use interactivecodebase.Base.{◌≡◌, ◌⊎◌, true, string_eq, nat_eq, arith}
use interactivecodebase.Base.Text.{text_le_total, text_le_trans, text_le_antisymm}
use interactivecodebase.Graph.Store.{EdgeRow}
use interactivecodebase.Graph.Query.{call_site_le, Joined, joined_le}

call_site_le_total : (a b : EdgeRow) → (call_site_le a b ≡ true) ⊎ (call_site_le b a ≡ true)
unfolding call_site_le nat_eq
call_site_le_total a b = ground (arith, text_le_total a.pos.file b.pos.file)

call_site_le_trans :
    (a b c : EdgeRow) → call_site_le a b ≡ true → call_site_le b c ≡ true → call_site_le a c ≡ true
unfolding call_site_le nat_eq
call_site_le_trans a b c h k =
    ground (
      arith,
      text_le_trans a.pos.file b.pos.file c.pos.file,
      text_le_antisymm a.pos.file b.pos.file,
    )

pub joined_le_total : (a b : Joined) → (joined_le a b ≡ true) ⊎ (joined_le b a ≡ true)
unfolding joined_le
joined_le_total a b = call_site_le_total a.0 b.0

pub joined_le_trans :
    (a b c : Joined) → joined_le a b ≡ true → joined_le b c ≡ true → joined_le a c ≡ true
unfolding joined_le
joined_le_trans a b c h k = call_site_le_trans a.0 b.0 c.0 h k
