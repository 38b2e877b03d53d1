-- ===== src/Tables/Items.antt =====
-- Items of the tables in upf/pfcp.c: the members `type`, `vendor` and `is_array` of an initializer.
use upg_vpp_tr.Base.{ℕ, true, false}
use upg_vpp_tr.Group.{Item}

-- A slot without an initializer.
abbrev pub no_item : Item
no_item = record { kind = 0; vendor = 0; is_array = false }

abbrev pub one : ℕ → Item
one kind = record { kind = kind; vendor = 0; is_array = false }

abbrev pub many : ℕ → Item
many kind = record { kind = kind; vendor = 0; is_array = true }

abbrev pub one_of : ℕ → ℕ → Item
one_of vendor kind = record { kind = kind; vendor = vendor; is_array = false }

abbrev pub many_of : ℕ → ℕ → Item
many_of vendor kind = record { kind = kind; vendor = vendor; is_array = true }
