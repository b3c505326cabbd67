-- ===== src/Subplane/Capability.antt =====
-- internal/subplane/capability.go: which protocols a client can be relied on to parse.
pub mod Laws
mod Tests
use Prim.Native.String.{String}
use lumi_panel.Base.{
  Bool, true, false, not, ◌||◌, Option, none, some, List, [], ◌∷◌, ℤ, pos, if◌then◌else◌,
}
use lumi_panel.Subplane.Client.{
  Profile, mihomo, sing_box, clash_premium, base64, unknown_profile, Version, zero_version, Client,
  is_zero, at_least,
}

-- `unknown_protocol` is any string that is not one of the constants.
pub data Protocol : Type 0 where
  shadowsocks : Protocol
  vmess : Protocol
  trojan : Protocol
  vless : Protocol
  hysteria2 : Protocol
  tuic : Protocol
  any_tls : Protocol
  lumi : Protocol
  unknown_protocol : String → Protocol

pub data Support : Type 0 where
  unsupported : Support
  partial : Support
  supported : Support

pub record Rule : Type 0 where
  pub level : Support
  pub min : Version

abbrev pub yes : Rule
yes = record { level = supported; min = zero_version }

abbrev pub since : ℤ → ℤ → Rule
since a b = record { level = supported; min = record zero_version { major = a; minor = b } }

abbrev pub maybe : Rule
maybe = record { level = partial; min = zero_version }

abbrev pub no : Rule
no = record { level = unsupported; min = zero_version }

-- A row of the matrix: a map whose absent keys give `none`.
abbrev pub Row : Type 0
Row = Protocol → Option Rule

unfoldable pub classic : Row → Row
classic m shadowsocks = some yes
classic m vmess = some yes
classic m trojan = some yes
classic m lumi = some no
classic m proto = m proto

-- The keys that each row of the literal sets itself.
unfoldable pub newer : Profile → Row
newer mihomo vless = some yes
newer mihomo hysteria2 = some (since (pos 1) (pos 15))
newer mihomo tuic = some (since (pos 1) (pos 15))
newer mihomo any_tls = some (since (pos 1) (pos 19))
newer sing_box vless = some yes
newer sing_box hysteria2 = some yes
newer sing_box tuic = some yes
newer sing_box any_tls = some (since (pos 1) (pos 12))
newer clash_premium vless = some no
newer clash_premium hysteria2 = some no
newer clash_premium tuic = some no
newer clash_premium any_tls = some no
newer base64 vless = some yes
newer base64 hysteria2 = some maybe
newer base64 tuic = some maybe
newer base64 any_tls = some maybe
newer _ _ = none

-- `matrix[profile][proto]`: an absent profile reads as the nil map, which has no keys.
unfoldable pub matrix : Profile → Row
unfolding classic newer
matrix (unknown_profile s) proto = none
matrix profile proto = classic (newer profile) proto

unfoldable pub is_supported : Support → Bool
is_supported supported = true
is_supported _ = false

unfoldable pub supports : Client → Protocol → Bool
unfolding matrix is_supported is_zero at_least
supports c proto = elim (matrix c.profile proto) [
  | none ↦ false
  | some r ↦
      if not (is_supported r.level)
      then false
      else if is_zero r.min
      then true
      else at_least c.version r.min
]

-- The loop of `FilterProtocols`, from the first protocol on: the kept and the dropped ones.
unfoldable pub filter_protocols : Client → List Protocol → List Protocol × List Protocol
unfolding supports
filter_protocols c [] = ([], [])
filter_protocols c (proto ∷ protos) =
    let (kept, dropped) = filter_protocols c protos in
    if supports c proto then (proto ∷ kept, dropped) else (kept, proto ∷ dropped)
