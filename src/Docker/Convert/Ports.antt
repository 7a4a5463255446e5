-- ===== src/Docker/Convert/Ports.antt =====
-- The ports that a container publishes (buildPorts of pkg/container/runtime/docker/docker.go).
use mathlib.Core.List
use libflexkube.Base.{
  String, Bool, true, false, none, some, List, [], ◌∷◌, ◌++◌, ◌==◌, ◌≡◌, refl, sym, ap, ◌∙◌, arith,
  eq_iff, eq_refl, All, if◌then◌else◌,
}
use mathlib.Core.Path.{subst}
use libflexkube.Base.Fault.{Result, success, failure}
use libflexkube.Base.Map.{Map, insert, lookup, has, lookup-insert, has-insert}
use libflexkube.Container.Types.{PortMap}
use libflexkube.World.{Library, PortBinding}
use libflexkube.Docker.Convert.{Ports, bindings, add_port, build_ports}

-- Both maps have the same ports.
abbrev Agrees : Ports → Type 0
Agrees r = (k : String) → has r.0 k ≡ has r.1 k

abbrev KeepsPorts : Ports → Ports → Type 0
KeepsPorts r r' = (k : String) → has r.0 k ≡ true → has r'.0 k ≡ true

-- The port of a mapping is valid, and it is bound.
abbrev pub Bound : Library → Ports → PortMap → Type 0
Bound lib r p =
    (port : String) × (lib.new_port p.protocol (lib.itoa p.port) ≡ success port)
    × (has r.0 port ≡ true)

add_port-Agrees :
    (lib : Library) (r : Ports) (p : PortMap) (port : String)
    → Agrees r
    → Agrees (add_port lib r p port)
unfolding add_port
add_port-Agrees lib r p port h k = ground (
  arith,
  has-insert r.0 port k
      (bindings r.0 port ++ record { host_ip = p.ip; host_port = lib.itoa p.port } ∷ []),
  has-insert r.1 port k tt,
  h k,
)

add_port-KeepsPorts :
    (lib : Library) (r : Ports) (p : PortMap) (port : String) → KeepsPorts r (add_port lib r p port)
unfolding add_port
add_port-KeepsPorts lib r p port k h = ground (
  arith,
  has-insert r.0 port k
      (bindings r.0 port ++ record { host_ip = p.ip; host_port = lib.itoa p.port } ∷ []),
)

add_port-has :
    (lib : Library) (r : Ports) (p : PortMap) (port : String)
    → has (add_port lib r p port).0 port ≡ true
unfolding add_port
add_port-has lib r p port = ground (
  arith,
  eq_refl port,
  has-insert r.0 port port
      (bindings r.0 port ++ record { host_ip = p.ip; host_port = lib.itoa p.port } ∷ []),
)

abbrev Built : Library → Ports → List PortMap → Ports → Type 0
Built lib r ports r' = Agrees r' × KeepsPorts r r' × All (Bound lib r') ports

success-injective : (r r' : Ports) → success r ≡ success r' → r ≡ r'
success-injective r r' h = cc

built_step :
    (lib : Library) (r r' : Ports) (p : PortMap) (ports : List PortMap) (result : Result String)
    → lib.new_port p.protocol (lib.itoa p.port) ≡ result
    → ((q : Ports) → Agrees q → build_ports lib q ports ≡ success r' → Built lib q ports r')
    → Agrees r
    → build_ports lib r (p ∷ ports) ≡ success r'
    → Built lib r (p ∷ ports) r'
unfolding build_ports
built_step lib r r' p ports (failure e) n ih a h = absurd (ground arith)
built_step lib r r' p ports (success port) n ih a h =
    let built = ih (add_port lib r p port) (add_port-Agrees lib r p port a) (ground arith) in
    (
      built.0,
      λ k t. built.1 k (add_port-KeepsPorts lib r p port k t),
      ((port, n, built.1 port (add_port-has lib r p port)), built.2),
    )

built :
    (lib : Library) (r r' : Ports) (ports : List PortMap)
    → Agrees r
    → build_ports lib r ports ≡ success r'
    → Built lib r ports r'
unfolding build_ports
built lib r r' [] a h = subst (Built lib r []) (success-injective r r' h) (a, λ k t. t, tt)
built lib r r' (p ∷ ports) a h =
    built_step lib r r' p ports (lib.new_port p.protocol (lib.itoa p.port)) refl
      (λ q a' h'. built lib q r' ports a' h') a h

-- The bindings that these mappings ask for at a port, in their order.
abbrev pub wanted : Library → List PortMap → String → List PortBinding
wanted lib [] k = []
wanted lib (p ∷ ports) k =
    let rest = wanted lib ports k in
    elim (lib.new_port p.protocol (lib.itoa p.port)) [
      | failure e ↦ rest
      | success port ↦
          if port == k then record { host_ip = p.ip; host_port = lib.itoa p.port } ∷ rest else rest
    ]

bindings-insert :
    (m : Map (List PortBinding)) (port k : String) (v : List PortBinding)
    → bindings (insert m port v) k ≡ (if port == k then v else bindings m k)
unfolding bindings
bindings-insert m port k v =
    ap (λ o. elim o [ none ↦ [] | some bs ↦ bs ]) (lookup-insert m port k v) ∙ chosen (port == k)
  where
    chosen :
        (b : Bool)
        → ◌≡◌ {A = List PortBinding}
            (elim (if b then some v else lookup m k) [ none ↦ [] | some bs ↦ bs ])
            (if b then v else bindings m k)
    chosen true = refl
    chosen false = refl

-- What a mapping at a port adds to the bindings at k.
bindings-add_port :
    (lib : Library) (r : Ports) (p : PortMap) (port k : String) (rest : List PortBinding)
    → bindings (add_port lib r p port).0 k ++ rest
      ≡ bindings r.0 k
        ++ (if port == k
            then record { host_ip = p.ip; host_port = lib.itoa p.port } ∷ rest
            else rest)
unfolding add_port
bindings-add_port lib r p port k rest =
    ap (λ x. x ++ rest) (bindings-insert r.0 port k _)
    ∙ chosen (port == k) (λ same. (eq_iff port k).0 same)
  where
    new : PortBinding
    new = record { host_ip = p.ip; host_port = lib.itoa p.port }

    chosen :
        (b : Bool)
        → (b ≡ true → port ≡ k)
        → (if b then bindings r.0 port ++ new ∷ [] else bindings r.0 k) ++ rest
          ≡ bindings r.0 k ++ (if b then new ∷ rest else rest)
    chosen true same =
        List.append_assoc (bindings r.0 port) (new ∷ []) rest
        ∙ ap (λ x. bindings r.0 x ++ new ∷ rest) (same refl)
    chosen false same = refl

WantedFrom : Library → Ports → List PortMap → Ports → Type 0
WantedFrom lib r ports r' = (k : String) → bindings r'.0 k ≡ bindings r.0 k ++ wanted lib ports k

wanted_step :
    (lib : Library) (r r' : Ports) (p : PortMap) (ports : List PortMap) (result : Result String)
    → lib.new_port p.protocol (lib.itoa p.port) ≡ result
    → ((q : Ports) → build_ports lib q ports ≡ success r' → WantedFrom lib q ports r')
    → build_ports lib r (p ∷ ports) ≡ success r'
    → WantedFrom lib r (p ∷ ports) r'
unfolding build_ports WantedFrom add_port
wanted_step lib r r' p ports (failure e) n ih h k = absurd (ground arith)
wanted_step lib r r' p ports (success port) n ih h k =
    let later = ih (add_port lib r p port) (ground arith) k in
    later
    ∙ bindings-add_port lib r p port k (wanted lib ports k)
    ∙ ap
        (λ (x : Result String). bindings r.0 k ++ (elim x [
          | failure e ↦ wanted lib ports k
          | success port ↦
              if port == k
              then record { host_ip = p.ip; host_port = lib.itoa p.port } ∷ wanted lib ports k
              else wanted lib ports k
        ]))
        (sym n)

bindings_wanted :
    (lib : Library) (r r' : Ports) (ports : List PortMap)
    → build_ports lib r ports ≡ success r'
    → WantedFrom lib r ports r'
unfolding build_ports WantedFrom
bindings_wanted lib r r' [] h k =
    ap (λ x. bindings x.0 k) (sym (success-injective r r' h))
    ∙ sym (List.append-nil (bindings r.0 k))
bindings_wanted lib r r' (p ∷ ports) h k =
    wanted_step lib r r' p ports (lib.new_port p.protocol (lib.itoa p.port)) refl
      (λ q h'. bindings_wanted lib q r' ports h') h k

-- Where buildPorts finds no error, the exposed ports are exactly those with bindings, the port of
-- every mapping is valid and among them, and at each port the bindings are those of the mappings
-- that ask for it, in their order, with their addresses and numbers.
pub build_ports-Bound :
    (lib : Library) (ports : List PortMap) (r : Ports)
    → build_ports lib ([], []) ports ≡ success r
    → ((k : String) → has r.0 k ≡ has r.1 k)
      × All (Bound lib r) ports
      × ((k : String) → bindings r.0 k ≡ wanted lib ports k)
unfolding lookup WantedFrom bindings
build_ports-Bound lib ports r h =
    let b = built lib ([], []) r ports (λ k. refl) h in
    (b.0, b.2, λ k. bindings_wanted lib ([], []) r ports h k)
