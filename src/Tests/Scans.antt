-- ===== src/Tests/Scans.antt =====
-- Ports, scans, protocol versions and the configuration.
use sshx.Prelude.{
  some, none, All, ℕ, ◌≡◌, ◌≢◌, ◌↔◌, ◌⊎◌, ◌≤◌, refl, true, false, not, ◌||◌, List, [], ◌∷◌, ◌++◌,
  nat_eq, bytes_eq, contains,
}
use sshx.Prelude.Text.{Bytes, codes, contains_byte, join}
use sshx.Prelude.Set.{Distinct}
use sshx.Ports
use sshx.Protocol.{Versions}
use sshx.Bridge.Ports.{Observed}
use sshx.Bridge.Ports.Scan.{seen, ScanAt, apply_port_scan-ScanAt}
use sshx.Bridge.Ports.Announce.{watch, watch_agrees}
use sshx.RemoteFs.{
  eio, canceled, error_exists, error_none, errno, errno_of, zero_errno, error_code_of,
  error_from_code,
}
use sshx.RemoteFs.Codes.{error_code_of-error_from_code}
use sshx.RemoteFs.Layout.{clean_mount_path}
use sshx.RemoteFs.Layout.Below.{IsName, clean_mount_path-IsName}
use sshx.Config.{allows}
use sshx.Config.Policy.{allows_iff}

abbrev groups : List (List Ports.Listener)
groups =
    (record { port = 8080; connect_host = Ports.ipv6_host } ∷ [])
    ∷ (record { port = 8080; connect_host = Ports.ipv4_host } ∷ [])
    ∷ []

abbrev exact_version : Versions
exact_version = record { protocol_version = 1; protocol_min = 0; protocol_max = 0 }

abbrev watching : Observed
watching = record { observed_ports = 3000 ∷ 8080 ∷ []; port_misses = (8080, 1) ∷ [] }

distinct : Distinct watching.observed_ports
unfolding contains
distinct = (refl, (refl, tt))

apply_port_scan-ScanAt_example : ScanAt watching (3000 ∷ []) 8080
apply_port_scan-ScanAt_example = apply_port_scan-ScanAt watching (3000 ∷ []) 8080 distinct

same_ports : (q : ℕ) → contains (3000 ∷ 8080 ∷ []) q ≡ seen watching q
same_ports q = refl

watch_agrees_example :
    contains (watch (watching, 3000 ∷ 8080 ∷ []) ((3000 ∷ []) ∷ [])).1 8080
    ≡ seen (watch (watching, 3000 ∷ 8080 ∷ []) ((3000 ∷ []) ∷ [])).0 8080
watch_agrees_example =
    watch_agrees ((3000 ∷ []) ∷ []) watching (3000 ∷ 8080 ∷ []) 8080 distinct same_ports

no_slash : contains_byte (codes "rm") b'/' ≡ false
unfolding contains_byte
no_slash = refl

abbrev deny : List Bytes
deny = codes "rm" ∷ []

allows_iff_example :
    (allows deny (codes "rm" ∷ []) ≡ not (contains deny (codes "rm")))
    × (allows deny ((codes "/bin" ++ b'/' ∷ codes "rm") ∷ [])
        ≡ not (contains deny (codes "rm") || contains deny (codes "/bin" ++ b'/' ∷ codes "rm")))
allows_iff_example = allows_iff deny (codes "/bin") b'r' (codes "m") [] no_slash

no_colon : contains_byte (codes "box") b':' ≡ false
unfolding contains_byte
no_colon = refl

no_port_colon : contains_byte (codes "22") b':' ≡ false
unfolding contains_byte
no_port_colon = refl

no_at : contains_byte (codes "box") b'@' ≡ false
unfolding contains_byte
no_at = refl

no_port_at : contains_byte (codes "box" ++ b':' ∷ codes "22") b'@' ≡ false
unfolding contains_byte
no_port_at = refl

exists_is_an_error : error_exists ≢ error_none
exists_is_an_error e = cc

error_code_of-error_from_code_example :
    error_code_of (errno (error_from_code error_exists)) ≡ error_exists
error_code_of-error_from_code_example =
    error_code_of-error_from_code error_exists exists_is_an_error

canceled_is_an_error : errno_of canceled ≢ zero_errno
unfolding errno_of
canceled_is_an_error e = cc

cleaned : clean_mount_path (codes "a/../b//c/.") ≡ some (codes "b/c")
unfolding clean_mount_path contains_byte sshx.Prelude.bytes_beq sshx.RemoteFs.Layout.path_clean
    sshx.Prelude.Text.has_prefix join sshx.Prelude.Text.split
cleaned = refl

escaped : clean_mount_path (codes "a/../../b") ≡ none
unfolding clean_mount_path contains_byte sshx.Prelude.bytes_beq sshx.RemoteFs.Layout.path_clean
    sshx.Prelude.Text.has_prefix join sshx.Prelude.Text.split
escaped = refl

clean_mount_path-IsName_example :
    (names : List Bytes) × (codes "b/c" ≡ join names (codes "/")) × (names ≢ []) × All IsName names
clean_mount_path-IsName_example =
    clean_mount_path-IsName (codes "a/../b//c/.") (codes "b/c") cleaned
