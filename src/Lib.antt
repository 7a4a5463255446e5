-- ===== src/Lib.antt =====
-- Verification library of libflexkube, a Go library that deploys Kubernetes clusters as containers
-- on hosts that are reached over SSH.
--
-- Modelled are the core that every resource is built on, pkg/container with its Docker runtime and
-- pkg/host with its transports, the helpers of internal/util that these use, and resources on top of
-- it: etcd clusters, controlplanes, kubelet pools and load balancers, with the checks of certificates
-- and the kubeconfig files that they use, and the generation of a PKI. Definitions are translations of
-- the Go functions, with the Go names in snake case.
--
-- How Go is read.
--   Base          the names that all files share.
--   Base/Fault    `error` values: format string and arguments of fmt.Errorf; results (A, error).
--   Base/Map      maps with string keys as association lists.
--   Base/Exec     functions that change a state and return a value or an error, or panic. What was
--                 written before an error stays written. Its children have rules for what an action
--                 keeps (Keeps), what holds after its success (Ensures), and what the success of a
--                 composed action says of its parts (Success).
--   World         what the program calls and does not implement: the Docker client, the SSH agent and
--                 connection, hooks of the user, and functions of the standard library and of go-cmp.
--                 Each call is recorded in a history, and a reply may depend on the whole history, so
--                 that theorems for every world hold whatever Docker and the network answer.
--   Memory        the objects behind pointers. Docker configurations are shared between containers,
--                 so they, the containers and the host configured containers have addresses.
--
-- Which file models which part.
--   Util                    internal/util/util.go and validate.go: the pickers, KeysStringMap,
--                           JoinSorted, ValidateErrors.Return.
--   Host/Config             pkg/host/host.go (BuildConfig) and pkg/host/transport/ssh/defaults.go.
--   Host/Ssh                pkg/host/transport/ssh/ssh.go: Validate and New; its children have Connect
--                           (Dial), the forwarding of sockets and ports (Forward), and the goroutines
--                           that accept and copy (Relay), as step relations.
--   Host/Transport          pkg/host/host.go (Validate, New, Connect) and
--                           pkg/host/transport/direct/direct.go.
--   Container/Types         pkg/container/types/types.go.
--   Docker                  pkg/container/runtime/docker/docker.go; Docker/Convert is the conversion
--                           of a configuration, Docker/Archive the tar archives.
--   Container/Single        pkg/container/container.go: a container on a runtime within reach.
--   Container/Forwarding    pkg/container/hostconfiguredcontainer.go: running an action with a
--                           forwarded runtime and with a helper container.
--   Container/Configured    the rest of that file: create, start, stop; its children have the access
--                           to the parts, the configuration files, and the directories of mounts.
--   Container/State         pkg/container/containersstate.go.
--   Container/Containers    pkg/container/containers.go: the state and the comparisons.
--   Container/Deploy        pkg/container/containers.go: recreate, the updates, and Deploy.
--   Container/Exported      pkg/container/containers.go: the user's Containers, New, ToExported.
--   Resource                the loops that pkg/etcd/cluster.go, pkg/kubelet/pool.go and
--                           pkg/apiloadbalancer/api-loadbalancers.go share: instances are filled,
--                           validated and converted to containers, in Validate and again in New.
--   Pki                     pkg/pki: the records of certificates and the checks of certificates and
--                           keys; its children have the key usages (Usage), the merging of settings
--                           (Merge), one certificate (Generate), requests for certificates
--                           (Requests), those of etcd.go (EtcdCertificates) and kubernetes.go
--                           (KubernetesCertificates), and PKI.Generate (RootCa). Pointers into a PKI
--                           are places of it, and distinct places are distinct objects, which is
--                           what reading a PKI from YAML gives.
--   Etcd                    pkg/etcd/cluster.go and member.go: the changes of membership before a
--                           deployment; its children have a member and its container (Member), the
--                           settings of a cluster, Validate and New (Cluster), and Deploy (Deployment).
--   Kubeconfig              pkg/kubernetes/client/kubeconfig.go, clientset.go, and the checks of
--                           pkg/types/certificate.go and privatekey.go.
--   Kubelet                 pkg/kubelet/kubelet.go; Kubelet/Pool is pkg/kubelet/pool.go.
--   Controlplane            pkg/controlplane: the configurations; its children have the checks that
--                           components share (Validator, validate.go), the components (ApiServer,
--                           kube-apiserver.go; ControllerManager, kube-controller-manager.go;
--                           Scheduler, kube-scheduler.go), the settings that controlplane.go gives
--                           them (Build), and Validate and New there (Deployment). The certificate
--                           that the validator makes up, by utiltest.GeneratePKIErr, and the YAML of
--                           the scheduler's configuration are parameters.
--   LoadBalancer            pkg/apiloadbalancer/api-loadbalancer.go and api-loadbalancers.go.
--   Examples                concrete containers, and the theorems at them.
-- The theorems stand in modules below the part that they are about: Util/Picks and Errors, Host/Merge,
-- Host/Valid, Host/Agent, Host/NoAttempt, Host/Ssh/Retries, Host/Ssh/Relay/Handlers and Accepting,
-- Docker/Convert/Ports, Docker/Archive/RoundTrip, Container/Single/Lifecycle,
-- Container/Forwarding/Restore and Cleanup, Container/Mounts, Container/Containers/Kept, Drift and
-- Files, Container/Deploy/Names, Update, Converge, Theorems and Idle, Container/Exported/Desired,
-- Resource/Total, Accepted, Rebuilt, Renewed and Named, Etcd/Membership, Serving, Joined, Renewed
-- and InitialCluster, LoadBalancer/Renewed, Kubeconfig/Auth, Kubelet/Renewed and Admin,
-- Pki/Merge/Reference, Pki/EtcdCertificates/Coverage, Pki/Settled with EtcdParts and Parts, Pki/Fresh,
-- Pki/Kept and KeptParts, Controlplane/Build/Again, Controlplane/ApiServer/Valid and
-- Controlplane/Deployment/Destroyed.
--
-- Deploy calls, from the outside in: Container/Deploy, Container/Containers, Container/State,
-- Container/Configured, Container/Forwarding, Container/Single and Docker, which calls the world. A
-- host configured container reaches the Docker daemon of its host through Host/Transport.
--
-- Loops are structural recursion over lists. The loop of Connect (Host/Ssh/Dial) is bounded by the
-- clock only: it is followed for as many rounds as the retry timeout has nanoseconds, which is enough
-- where every round takes one, and ends in `hang` after that. A `range` over a map is a loop over
-- its entries; where one function compares two ranges over the same map (filesToUpdate), the orders
-- are given by the world. A range over a map that is changed meanwhile looks each key up again when
-- it comes to it, and comes to each key once, while Go may come again to a key that its own round has
-- deleted and inserted (a container that is recreated). Modes and sizes are natural numbers, ports and numeric owners are integers: the code
-- only stores, compares and prints them, so no wrap-around is met.
--
-- The etcd client is a state of its own: each call is recorded, and its reply may depend on the calls
-- before it.
--
-- Not modelled: reading and writing YAML (the texts that the code writes with it are parameters),
-- printing of differences, cryptography, which is calls of the world and functions of its library, the
-- hook that labels a node and waits for it, Helm releases (pkg/helm), which are calls of Helm, and the
-- command line (cli).
pub mod Base
pub mod Util
pub mod Host
pub mod Container
pub mod Controlplane
pub mod Etcd
pub mod Pki
pub mod Kubeconfig
pub mod Resource
pub mod LoadBalancer
pub mod Kubelet
pub mod World
pub mod Docker
mod Examples
pub mod Memory
