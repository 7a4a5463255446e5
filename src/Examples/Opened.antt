-- ===== src/Examples/Opened.antt =====
-- Names that open whole layers at once, for runs on concrete inputs.
use libflexkube.Base.{ℕ_discrete}
use libflexkube.Base.Exec.{◌>>=◌}
use libflexkube.Examples.Inputs.{reply}
use libflexkube.Util
use libflexkube.Base.Map
use libflexkube.Host.Ssh
use libflexkube.Host.Transport
use libflexkube.Host.Ssh.Dial
use libflexkube.Host.Ssh.Forward
use libflexkube.Examples.Inputs
use libflexkube.World
use libflexkube.Docker
use libflexkube.Docker.Convert
use libflexkube.Docker.Archive
use libflexkube.Memory
use libflexkube.Container.Types
use libflexkube.Container.Single
use libflexkube.Container.Forwarding
use libflexkube.Container.Configured
use libflexkube.Container.State
use libflexkube.Container.Containers
use libflexkube.Container.Deploy
use libflexkube.Container.Exported
use libflexkube.Host.Config
use libflexkube.Resource
use libflexkube.Pki
use libflexkube.Pki.Usage
use libflexkube.Pki.Merge
use libflexkube.Pki.Generate
use libflexkube.Pki.Requests
use libflexkube.Pki.EtcdCertificates
use libflexkube.Pki.KubernetesCertificates
use libflexkube.Pki.RootCa
use libflexkube.LoadBalancer
use libflexkube.Etcd
use libflexkube.Etcd.Member
use libflexkube.Etcd.Cluster
use libflexkube.Kubeconfig
use libflexkube.Kubelet
use libflexkube.Kubelet.Pool
use libflexkube.Etcd.Deployment

unfoldable pub open_util : Unit {0}
unfolding Util.pick_string Util.pick_string_slice Util.pick_string_map Util.pick_int
    Util.sort_strings Util.insert_sorted Util.keys_string_map Util.join_commas Util.return_errors
    Map.contains Map.lookup Map.insert Map.delete Map.keys
open_util = tt

unfoldable pub open_host : Unit {0}
unfolding Ssh.validate_ssh Ssh.new_ssh Transport.validate_host Dial.before_timeout Dial.give_up
    Dial.dialed Dial.dial_loop Dial.rounds_of Dial.connect_ssh Forward.random_unix_socket
    Forward.extract_path Forward.schedule Forward.forward_unix Transport.connect_transport
    Inputs.ticks Transport.new_host Transport.connect Transport.forward_unix_socket World.perform
    World.attempt reply ℕ_discrete ◌>>=◌
open_host = tt

unfoldable pub open_docker : Unit {0}
unfolding Docker.set_address Docker.get_address Docker.host_option Docker.new Docker.image_id
    Docker.pull_image Docker.pull_image_if_not_present Docker.create Docker.start Docker.stop
    Docker.status Docker.delete Docker.copy Docker.stat Docker.read Convert.build_ports
    Convert.mounts Convert.convert_container_config Convert.sanitize_image_name Archive.files_to_tar
    Archive.is_directory Archive.untar Archive.tar_to_files
open_docker = tt

unfoldable pub open_single : Unit {0}
unfolding Memory.on_world Memory.set_container Memory.set_hcc Memory.set_config
    Memory.alloc_container Memory.alloc_hcc Types.exists Types.running Types.restarting
    Single.validate_container Single.select_runtime Single.new_container Single.instance_status
    Single.instance_start Single.instance_stop Single.instance_delete Single.create_instance
    Single.create Single.from_status Single.set_status Single.set_runtime Single.update_status
    Single.start Single.stop Single.delete
open_single = tt

unfoldable pub open_hcc : Unit {0}
unfolding Forwarding.connect_and_forward Forwarding.set_address Forwarding.restore_and_run
    Forwarding.forward_and_run Forwarding.run_forwarded Forwarding.with_forwarded_runtime
    Forwarding.create_configuration_container Forwarding.remove_configuration_container
    Forwarding.with_configuration_container Configured.validate_hcc Configured.new_hcc
    Configured.container_of Configured.config_container_of Configured.update_configuration_status
    Configured.configuration_status Configured.copy_config_files Configured.configure
    Configured.dir_mounts Configured.stat_mounts Configured.is_dir Configured.missing_mounts
    Configured.create_missing_mounts Configured.create Configured.status Configured.with_hook
    Configured.start Configured.stop Configured.delete
open_hcc = tt

unfoldable pub open_deploy : Unit {0}
unfolding State.new_state_from State.new_state State.status_of State.set_status_of
    State.check_existing State.checked State.check_one State.check_state State.stop_if_running
    State.delete_if_exists State.remove_object State.remove_entry State.remove_container
    State.create_entry State.create_and_start State.exported_status State.export_one State.export
    Containers.on_memory Containers.put_current Containers.drop_current Containers.deref
    Containers.check_current_state Containers.drifted Containers.drifted_files
    Containers.files_to_update Containers.same_list Containers.object_at Containers.updates_of
    Containers.adopt Containers.copy_files Containers.fail_with Containers.finish_configured
    Containers.configure_object Containers.configure_at Containers.ensure_configured
    Containers.ensure_running Containers.exists_at Containers.copy_status Containers.adopt_created
    Containers.finish_created Containers.create_object Containers.ensure_exists
    Containers.is_updatable Containers.diff_host Containers.object_of Containers.diff_container
    Deploy.fail_with_arg Deploy.remove_current Deploy.create_again Deploy.recreate
    Deploy.ensure_host Deploy.ensure_container Deploy.has_updates Deploy.updates_if
    Deploy.pending_updates Deploy.settle_current Deploy.ensure_current_container Deploy.keep_ensured
    Deploy.check_object Deploy.check_entry Deploy.check_one Deploy.check_all Deploy.create_new
    Deploy.ensure_new_container Deploy.create_all Deploy.ensure_up_to_date Deploy.update_one
    Deploy.update_all Deploy.deploy_from Deploy.deploy_checked Deploy.deploy
open_deploy = tt

unfoldable pub open_resources : Unit {0}
unfolding Exported.validate Exported.new Exported.built Config.build_ssh Config.build_config
    Resource.default_config Resource.convert Resource.check_all Resource.validate_all
    Memory.alloc_config Resource.build_all Resource.new_all Pki.decode_x509_certificate
    Pki.parse_private_key Pki.validate_private_key LoadBalancer.server_lines LoadBalancer.config
    LoadBalancer.validate_instance LoadBalancer.new_instance_error LoadBalancer.new_instance
    LoadBalancer.to_host_configured_container LoadBalancer.propagate_instance Resource.numbered
    LoadBalancer.validate LoadBalancer.new Member.config_files Member.args
    Member.to_host_configured_container Member.errors_in Member.validate_member
    Member.new_member_error Cluster.initial_members Cluster.certificate_of Cluster.with_etcd_pki
    Cluster.with_pki Cluster.with_settings Cluster.with_addresses Cluster.propagate_member
    Cluster.ca_errors Cluster.validate Cluster.new
open_resources = tt

unfoldable pub open_etcd : Unit {0}
unfolding Etcd.ask Etcd.peer_urls Etcd.shares_url Etcd.find_id Etcd.get_id Etcd.add Etcd.remove
    Etcd.missing_from Etcd.members_to_remove Etcd.members_to_add Etcd.remove_all Etcd.add_all
    Etcd.update_members
open_etcd = tt

unfoldable pub open_cluster : Unit {0}
unfolding Exported.to_exported Deployment.on_containers Deployment.on_client
    Deployment.check_current_state Deployment.existing_endpoints Deployment.first_member
    Deployment.get_client Deployment.update_membership Deployment.deploy Member.forward_all
    Member.forward_endpoints Member.get_etcd_client
open_cluster = tt

unfoldable pub open_kubeconfig : Unit {0}
unfolding Kubeconfig.unmarshal_certificate Kubeconfig.parse_key Kubeconfig.unmarshal_private_key
    Kubeconfig.reread_error Kubeconfig.validate_auth Kubeconfig.config_errors
    Kubeconfig.validate_config Kubeconfig.render_kubeconfig Kubeconfig.new_clientset_error
    Kubeconfig.new_client_error Kubeconfig.to_yaml_string
open_kubeconfig = tt

unfoldable pub open_kubelet : Unit {0}
unfolding Kubelet.reread_kubelet Kubelet.validate_bootstrap_config Kubelet.admin_config_required
    Kubelet.validate_admin_config Kubelet.validate_kubelet Kubelet.new_kubelet_error
    Kubelet.new_kubelet Util.join_pairs Util.join_sorted Kubelet.args Kubelet.mounts
    Kubelet.config_files Kubelet.to_host_configured_container Pool.with_admin Pool.pki_integration
    Pool.client_from Pool.kubelet_pki_integration Pool.with_pool Pool.propagate_kubelet
    Pool.validate Pool.new
open_kubelet = tt

unfoldable pub open_pki : Unit {0}
unfolding Usage.key_usage_from_string Usage.extended_key_usage_from_string Usage.decode_usages
    Usage.decode_key_usage Merge.merge_certificate Merge.certificate_text_error Merge.merge_one
    Merge.merge_all Merge.build_certificate Generate.validate_certificate
    Generate.decode_private_key Generate.persist_public_key Generate.generate_private_key
    Generate.get_private_key Generate.ip_addresses_up_to_date
    Generate.is_x509_certificate_up_to_date Generate.decode_keypair Generate.big_int_hash
    Generate.persist_x509_certificate Generate.create_and_persist Generate.ip_texts
    Generate.certificate_template Generate.issuer_of Generate.generate_x509_certificate
    Generate.ensure_x509_certificate Generate.generate Requests.on_object Requests.initialized
    Requests.store_results Requests.serve Requests.build_and_generate
    EtcdCertificates.certificate_from_cn_ip_map EtcdCertificates.certificate_at
    EtcdCertificates.ip_at EtcdCertificates.existing_request EtcdCertificates.new_request
    EtcdCertificates.requests_for EtcdCertificates.add_requests EtcdCertificates.collected
    EtcdCertificates.certificate_requests_from_map EtcdCertificates.crs_from_map
    EtcdCertificates.client_cns_map EtcdCertificates.servers_of EtcdCertificates.generate_etcd
    KubernetesCertificates.default_kube_api_server_server_certificate KubernetesCertificates.request
    KubernetesCertificates.kubernetes_ca_cr KubernetesCertificates.kubernetes_front_proxy_ca_cr
    KubernetesCertificates.kube_api_server_server_cr
    KubernetesCertificates.kube_api_server_kubelet_cr
    KubernetesCertificates.kube_api_server_front_proxy_client_cr KubernetesCertificates.admin_cr
    KubernetesCertificates.kube_controller_manager_cr KubernetesCertificates.kube_scheduler_cr
    KubernetesCertificates.service_account_cr KubernetesCertificates.with_api_server
    KubernetesCertificates.generate_kubernetes RootCa.generate_root_ca RootCa.on_part
    RootCa.generate_etcd_part RootCa.generate_kubernetes_part RootCa.generate_pki
open_pki = tt
