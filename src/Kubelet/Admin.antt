-- ===== src/Kubelet/Admin.antt =====
-- What a kubelet's admin configuration is for (pkg/kubelet/kubelet.go).
use libflexkube.Base.{
  Bool, true, false, not, Option, none, some, List, [], ◌++◌, ◌==◌, ◌≡◌, refl, sym, ◌∙◌, is_empty,
  is_some, ◌&&◌, ◌||◌,
}
use libflexkube.Base.Fault.{option_error, Error, errorf, wrapf, error_if, error_of}
use libflexkube.Util.{return_errors}
use libflexkube.Util.Errors.{parts_empty, nothing_returned}
use libflexkube.World.{Library}
use libflexkube.Host.Transport.{validate_host}
use libflexkube.Kubeconfig.{ClientConfig, validate_config, to_yaml_string}
use libflexkube.Kubelet.{
  reread_kubelet, Kubelet, KubeletLibrary, validate_bootstrap_config, admin_config_required,
  validate_admin_config, validate_kubelet,
}

no_option : (f : Error → Error) (o : Option Error) → option_error f o ≡ [] → o ≡ none
no_option f none q = refl
no_option f (some e) q = cc

-- Whether a kubelet needs the admin configuration.
abbrev pub needs_admin : Kubelet → Bool
needs_admin k = k.wait_for_node_ready || not (is_empty k.privileged_labels)

required_none :
    (wait labels : Bool) (e f : Error)
    → error_if labels e ++ error_if wait f ≡ []
    → false ≡ (wait || labels)
required_none true true e f q = cc
required_none true false e f q = cc
required_none false true e f q = cc
required_none false false e f q = refl

used :
    (wait nothing : Bool) (e : Error) (es : List Error)
    → error_if (not wait && nothing) e ++ es ≡ []
    → true ≡ (wait || not nothing)
used true nothing e es q = refl
used false true e es q = cc
used false false e es q = refl

without_config :
    (lib : Library) (k : Kubelet)
    → k.admin_config ≡ none
    → validate_admin_config lib k ≡ return_errors (admin_config_required k)
unfolding validate_admin_config admin_config_required
without_config lib k c = rw (validate_admin_config, c) refl

with_config :
    (lib : Library) (k : Kubelet) (config : ClientConfig)
    → k.admin_config ≡ some config
    → validate_admin_config lib k
      ≡ return_errors (
          error_if
            (not k.wait_for_node_ready && is_empty k.privileged_labels)
            (errorf "adminConfig set but not used")
          ++ (option_error (wrapf "validating admin config") (validate_config lib config)
              ++ error_of (wrapf "generating admin kubeconfig") (to_yaml_string lib config)))
unfolding validate_admin_config admin_config_required
with_config lib k config c = rw (validate_admin_config, c) refl

admin_needed :
    (lib : Library) (k : Kubelet) (c : Option ClientConfig)
    → k.admin_config ≡ c
    → validate_admin_config lib k ≡ none
    → is_some c ≡ needs_admin k
unfolding admin_config_required
admin_needed lib k none c v =
    required_none k.wait_for_node_ready (not (is_empty k.privileged_labels)) _ _
      (nothing_returned (admin_config_required k) (sym (without_config lib k c) ∙ v))
admin_needed lib k (some config) c v =
    used k.wait_for_node_ready (is_empty k.privileged_labels) _ _ (
      nothing_returned
        (error_if (not k.wait_for_node_ready && is_empty k.privileged_labels)
            (errorf "adminConfig set but not used")
          ++ (option_error (wrapf "validating admin config") (validate_config lib config)
              ++ error_of (wrapf "generating admin kubeconfig") (to_yaml_string lib config)))
        (sym (with_config lib k config c) ∙ v))

-- A valid kubelet has an admin configuration exactly when it needs one: when it waits for its node
-- or has privileged labels.
pub validate_kubelet-admin_config :
    (lib : KubeletLibrary) (k : Kubelet)
    → validate_kubelet lib k ≡ none
    → is_some k.admin_config ≡ needs_admin k
unfolding validate_kubelet
validate_kubelet-admin_config lib k v =
    let a =
      option_error (λ e. wrapf "deserializing configuration" (lib.base.yaml_error e))
        (reread_kubelet lib.base k) in
    let b =
      error_if (k.kubernetes_ca_certificate == "")
        (errorf "kubernetesCACertificate can't be empty") in
    let c = validate_bootstrap_config lib.base k in
    let d = error_if (k.volume_plugin_dir == "") (errorf "volumePluginDir can't be empty") in
    let e = option_error (λ e. e) (validate_admin_config lib.base k) in
    let f =
      option_error (wrapf "validating host configuration") (validate_host lib.base k.host)
      ++ error_if (k.name == "") (errorf "name can't be empty") in
    let r1 =
      (parts_empty a (b ++ (c ++ (d ++ (e ++ f))))
        (nothing_returned (a ++ (b ++ (c ++ (d ++ (e ++ f))))) v)).1 in
    let r2 = (parts_empty b (c ++ (d ++ (e ++ f))) r1).1 in
    let r3 = (parts_empty c (d ++ (e ++ f)) r2).1 in
    let r4 = (parts_empty d (e ++ f) r3).1 in
    let none_found = (parts_empty e f r4).0 in
    admin_needed lib.base k k.admin_config refl
      (no_option (λ e. e) (validate_admin_config lib.base k) none_found)
