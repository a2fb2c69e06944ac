-- ===== src/Examples/Configuration.antt =====
-- The theorems on the configuration of sshd and on the arguments of ssh, at concrete inputs.
use familiar_fleet.Config.Forwarding.{plain, forwarding_args, tunnel_args_for_port-forwarding_args}
use familiar_fleet.FilePath
use familiar_fleet.Base.{all, ◌≡◌, refl, true, List, Text, codes, arith}
use familiar_fleet.State.{Enrollment, paths_in}
use familiar_fleet.Config.{Written, write_runtime_config, tunnel_args_for_port}
use familiar_fleet.Examples.Clients.{key, enrollment, no_ip, is_valid}

abbrev pub trusting : Enrollment
trusting = record enrollment { tunnel_host_key = key }

abbrev pub configuration : List Written
configuration =
    (write_runtime_config (paths_in (codes "/s")) trusting (codes "ada") (codes "/bin/herdr")
      2222).0

key_is_plain : all plain (paths_in (codes "/s")).tunnel_key ≡ true
unfolding FilePath.join FilePath.clean
key_is_plain = refl

hosts_are_plain : all plain (paths_in (codes "/s")).known_hosts ≡ true
unfolding FilePath.join FilePath.clean
hosts_are_plain = refl

no_ip-plain : (s : Text) → no_ip s ≡ true → all plain s ≡ true
no_ip-plain s h = absurd (ground (arith, h))

tunnel_args_for_port-forwarding_args_example :
    tunnel_args_for_port (paths_in (codes "/s")) enrollment 2222
    ≡ forwarding_args (paths_in (codes "/s")) enrollment 2222
tunnel_args_for_port-forwarding_args_example =
    tunnel_args_for_port-forwarding_args (paths_in (codes "/s")) enrollment 2222 key_is_plain
      hosts_are_plain no_ip no_ip-plain is_valid
