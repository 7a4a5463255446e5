-- ===== src/Host/Merge.antt =====
-- What merging host configurations gives (pkg/host/host.go, pkg/host/transport/ssh/defaults.go).
use libflexkube.Base.{
  ℕ, zero, suc, ◌<◌, String, false, Option, some, [], ◌∷◌, ◌==◌, ◌≡◌, ◌≢◌, refl, arith, eq_iff,
  is_some, not, ◌&&◌,
}
use libflexkube.Util.{ℤ, pos, is_zero, pick_string, pick_int}
use libflexkube.Host.Config.{SshConfig, Host, build_ssh, build_config, or_empty}

pick_string_twice :
    (a b c : String)
    → pick_string (pick_string (a ∷ b ∷ c ∷ []) ∷ b ∷ c ∷ []) ≡ pick_string (a ∷ b ∷ c ∷ [])
unfolding pick_string
pick_string_twice a b c = ground arith

pick_string_again :
    (a b : String) → pick_string (pick_string (a ∷ b ∷ []) ∷ b ∷ []) ≡ pick_string (a ∷ b ∷ [])
unfolding pick_string
pick_string_again a b = ground arith

pick_int_twice :
    (a b c : ℤ) → pick_int (pick_int (a ∷ b ∷ c ∷ []) ∷ b ∷ c ∷ []) ≡ pick_int (a ∷ b ∷ c ∷ [])
unfolding pick_int
pick_int_twice a b c = ground arith

-- Merging an SSH configuration a second time with the same defaults changes nothing.
pub build_ssh_idem : (c d : Option SshConfig) → build_ssh (some (build_ssh c d)) d ≡ build_ssh c d
unfolding build_ssh
build_ssh_idem c d = simp (pick_string_twice, pick_string_again, pick_int_twice)

text_ne : (s : String) → (s == "") ≡ false → s ≢ ""
text_ne s h e = cc ((eq_iff s "").1 e)

pick_string_default : (a b c : String) → c ≢ "" → pick_string (a ∷ b ∷ c ∷ []) ≢ ""
unfolding pick_string
pick_string_default a b c h e = ground (arith, eq_iff a "", eq_iff b "", eq_iff c "")

pick_int_default : (a b : ℤ) (n : ℕ) → 0 < n → is_zero (pick_int (a ∷ b ∷ pos n ∷ [])) ≡ false
unfolding pick_int
pick_int_default a b zero h = absurd (omega arith)
pick_int_default a b (suc n) h = ground arith

-- A merged SSH configuration has a user, a connection timeout, a retry timeout and a retry interval
-- that are not empty, and a port that is not 0, whatever was merged.
pub build_ssh_complete :
    (c d : Option SshConfig)
    → ((build_ssh c d).user ≢ "")
      × ((build_ssh c d).connection_timeout ≢ "")
      × ((build_ssh c d).retry_timeout ≢ "")
      × ((build_ssh c d).retry_interval ≢ "")
      × (is_zero (build_ssh c d).port ≡ false)
unfolding build_ssh
build_ssh_complete c d = (
  pick_string_default a.user b.user "root" (text_ne "root" refl),
  pick_string_default a.connection_timeout b.connection_timeout "30s" (text_ne "30s" refl),
  pick_string_default a.retry_timeout b.retry_timeout "60s" (text_ne "60s" refl),
  pick_string_default a.retry_interval b.retry_interval "1s" (text_ne "1s" refl),
  pick_int_default a.port b.port 22 (omega arith),
)
  where
    a : SshConfig
    a = or_empty c

    b : SshConfig
    b = or_empty d

-- Merging a host a second time with the same defaults changes nothing.
pub build_config_idem : (h d : Host) → build_config (build_config h d) d ≡ build_config h d
unfolding build_config
build_config_idem h d = ground (arith, build_ssh_idem h.ssh_config d.ssh_config)

-- A host that sets at most one transport has exactly one after merging with any defaults.
pub build_config_one :
    (h d : Host)
    → (is_some h.direct_config && is_some h.ssh_config) ≡ false
    → is_some (build_config h d).direct_config ≡ not (is_some (build_config h d).ssh_config)
unfolding build_config
build_config_one h d e = ground arith
