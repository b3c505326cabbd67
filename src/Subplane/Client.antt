-- ===== src/Subplane/Client.antt =====
-- The types of internal/subplane/detect.go that the rest of the package uses.
use Prim.Native.String.{String}
use lumi_panel.Base.{Bool, false, not, ◌&&◌, ℤ, pos, ltb_ℤ, ◌==ℤ◌, if◌then◌else◌}

-- `unknown_profile` is any string that is not one of the constants.
pub data Profile : Type 0 where
  mihomo : Profile
  sing_box : Profile
  clash_premium : Profile
  base64 : Profile
  unknown_profile : String → Profile

pub record Version : Type 0 where
  pub major : ℤ
  pub minor : ℤ
  pub patch : ℤ

abbrev pub zero_version : Version
zero_version = record { major = pos 0; minor = pos 0; patch = pos 0 }

-- `v == Version{}`.
unfoldable pub is_zero : Version → Bool
is_zero v = v.major ==ℤ pos 0 && v.minor ==ℤ pos 0 && v.patch ==ℤ pos 0

unfoldable pub less : Version → Version → Bool
less v o =
    if not (v.major ==ℤ o.major)
    then ltb_ℤ v.major o.major
    else if not (v.minor ==ℤ o.minor)
    then ltb_ℤ v.minor o.minor
    else ltb_ℤ v.patch o.patch

unfoldable pub at_least : Version → Version → Bool
unfolding is_zero less
at_least v min = if is_zero v then false else not (less v min)

pub record Client : Type 0 where
  pub profile : Profile
  pub version : Version
