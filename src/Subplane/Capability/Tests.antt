-- ===== src/Subplane/Capability/Tests.antt =====
-- Runs of internal/subplane/capability.go, and its theorems at concrete clients.
use lumi_panel.Base.{◌≡◌, refl, arith, true, false, inl, inr, pos, pos_part, neg_part}
use lumi_panel.Subplane.Client.{mihomo, sing_box, base64, Version, Client}
use lumi_panel.Subplane.Capability.{any_tls, tuic, supports}
use lumi_panel.Subplane.Capability.Laws.{supports-upgrade}

abbrev old_core : Version
old_core = record { major = pos 1; minor = pos 12; patch = pos 3 }

abbrev new_core : Version
new_core = record { major = pos 1; minor = pos 19; patch = pos 0 }

abbrev old_box : Client
old_box = record { profile = sing_box; version = old_core }

runs :
    (supports old_box any_tls ≡ true)
    × (supports (record { profile = mihomo; version = old_core }) any_tls ≡ false)
    × (supports (record { profile = base64; version = new_core }) tuic ≡ false)
unfolding supports pos_part neg_part
runs = (refl, refl, refl)

offered : supports (record { profile = sing_box; version = old_core }) any_tls ≡ true
unfolding supports pos_part neg_part
offered = refl

supports-upgrade_example :
    supports (record { profile = sing_box; version = new_core }) any_tls ≡ true
unfolding pos_part neg_part
supports-upgrade_example =
    supports-upgrade sing_box old_core new_core any_tls (inr (refl, inl (omega arith))) offered
