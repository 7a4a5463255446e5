-- ===== src/Examples/Etcd.antt =====
-- The theorems on etcd membership at concrete inputs.
use libflexkube.Base.{true, false, not, none, Any, All, ◌⊎◌, List, [], ◌∷◌, ◌≡◌, refl, ◌&&◌, append}
use libflexkube.Base.Map.{has, contains}
use libflexkube.Base.Fault.{Result, success}
use libflexkube.Container.State.{ContainersState}
use libflexkube.Etcd.{
  MemberConfig, named, new_client, close, EtcdMember, EtcdClient, EtcdCall, EtcdReply, member_list,
  member_add, member_remove, peer_urls, add, remove, members_to_remove, members_to_add,
}
use libflexkube.Etcd.Membership.{matches, contains-members, known_members}

abbrev one : MemberConfig
one = record (named "one") { peer_address = "10.0.0.1" }

abbrev listed : List EtcdMember
listed =
    record { id = 7; name = "zero"; peer_urls = "https://10.0.0.9:2380" ∷ [] }
    ∷ record { id = 8; name = "one"; peer_urls = "https://10.0.0.1:2380" ∷ [] }
    ∷ []

abbrev etcd_reply : List EtcdCall → (c : EtcdCall) → Result (EtcdReply c)
etcd_reply h member_list = success listed
etcd_reply h (member_add urls) = success tt
etcd_reply h (member_remove id) = success tt
etcd_reply h (new_client endpoints certificate key ca) = success tt
etcd_reply h close = success tt

abbrev etcd : EtcdClient
etcd = record { join_host_port = λ h p. append h (append ":" p); answer = etcd_reply; history = [] }

abbrev before : ContainersState
before = ("zero", none) ∷ ("one", none) ∷ []

abbrev after : ContainersState
after = ("one", none) ∷ ("two", none) ∷ []

contains-members_example :
    (contains (members_to_remove before after) "zero"
      ≡ (has before "zero" && not (has after "zero")))
    × (contains (members_to_add before after) "zero"
        ≡ (has after "zero" && not (has before "zero")))
contains-members_example = contains-members before after "zero"

known_members_example :
    (Any
        (λ e.
          (matches one (peer_urls etcd.join_host_port one) e ≡ true)
          × ((remove one etcd).1.history ≡ member_remove e.id ∷ member_list ∷ []))
        listed
      × ((add one etcd).1.history ≡ member_list ∷ []))
    ⊎ (All (λ e. matches one (peer_urls etcd.join_host_port one) e ≡ false) listed
        × ((remove one etcd).1.history ≡ member_list ∷ [])
        × ((add one etcd).1.history
            ≡ member_add (peer_urls etcd.join_host_port one) ∷ member_list ∷ []))
known_members_example = known_members one etcd listed refl (refl, (refl, tt))
