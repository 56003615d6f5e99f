-- ===== src/Display/Options.antt =====
-- The choices of the user: cmd/options.go.
pub mod Cycles
pub mod Panels
use netobserv_cli.Common.{ℕ, suc, ◌+◌, ◌-◌, ◌%◌, List, [], ◌∷◌, Option, length, get_elem?}
use netobserv_cli.Text.{Bytes, codes}

-- `optionItem`.
pub record OptionItem : Type 0 where
  pub name : Bytes
  pub ids : List Bytes

-- `option`.
pub record Choice : Type 0 where
  pub items : List OptionItem
  pub current : ℕ

-- `getCurrentItem`; an index out of range is `none`.
unfoldable pub get_current_item : Choice → Option OptionItem
get_current_item opt = get_elem? opt.items opt.current

unfoldable pub prev : Choice → Choice
prev opt = record opt { current = (opt.current + (length opt.items - 1)) % length opt.items }

unfoldable pub next : Choice → Choice
next opt = record opt { current = suc opt.current % length opt.items }

abbrev pub all_options : Bytes
all_options = codes "All"

abbrev pub no_options : Bytes
no_options = codes "None"

abbrev pub raw_display : Bytes
raw_display = codes "Raw"

abbrev pub standard_display : Bytes
standard_display = codes "Standard"

abbrev pub pkt_drop_feature : Bytes
pkt_drop_feature = codes "pktDrop"

abbrev pub dns_feature : Bytes
dns_feature = codes "dnsTracking"

abbrev pub rtt_feature : Bytes
rtt_feature = codes "flowRTT"

abbrev pub network_events_display : Bytes
network_events_display = codes "networkEvents"

abbrev pub pkt_translation : Bytes
pkt_translation = codes "packetTranslation"

abbrev pub udn_mapping : Bytes
udn_mapping = codes "udnMapping"

abbrev pub ip_sec : Bytes
ip_sec = codes "ipsec"

abbrev pub plaintext_capture_feature : Bytes
plaintext_capture_feature = codes "plaintextCapture"

abbrev pub item : Bytes → List Bytes → OptionItem
item name ids = record { name = name; ids = ids }

abbrev pub display_items : List OptionItem
display_items =
    item (raw_display) ([])
    ∷ item (standard_display) ([])
    ∷ item (codes "Packet drops") (pkt_drop_feature ∷ [])
    ∷ item (codes "DNS") (dns_feature ∷ [])
    ∷ item (codes "RTT") (rtt_feature ∷ [])
    ∷ item (codes "Network events") (network_events_display ∷ [])
    ∷ item (codes "Packet translation") (pkt_translation ∷ [])
    ∷ item (codes "UDN mapping") (udn_mapping ∷ [])
    ∷ item (codes "IPSec") (ip_sec ∷ [])
    ∷ item (all_options) (
        pkt_drop_feature ∷ dns_feature ∷ rtt_feature ∷ network_events_display ∷ pkt_translation
        ∷ udn_mapping ∷ ip_sec ∷ [])
    ∷ []

abbrev pub default_display : Choice
default_display = record { items = display_items; current = 1 }

abbrev pub enrichment_items : List OptionItem
enrichment_items =
    item (no_options) ([])
    ∷ item (codes "IP & Port")
        ((codes "SrcAddr") ∷ (codes "SrcPort") ∷ (codes "DstAddr") ∷ (codes "DstPort") ∷ [])
    ∷ item (codes "Cluster") ((codes "ClusterName") ∷ [])
    ∷ item (codes "Zone") ((codes "SrcZone") ∷ (codes "DstZone") ∷ [])
    ∷ item (codes "Host") (
        (codes "SrcK8S_HostIP")
        ∷ (codes "DstK8S_HostIP")
        ∷ (codes "SrcK8S_HostName")
        ∷ (codes "DstK8S_HostName")
        ∷ (codes "FlowDirection")
        ∷ [])
    ∷ item (codes "Namespace") ((codes "SrcK8S_Namespace") ∷ (codes "DstK8S_Namespace") ∷ [])
    ∷ item (codes "Owner") (
        (codes "SrcK8S_OwnerType")
        ∷ (codes "DstK8S_OwnerType")
        ∷ (codes "SrcK8S_OwnerName")
        ∷ (codes "DstK8S_OwnerName")
        ∷ (codes "SrcK8S_Namespace")
        ∷ (codes "DstK8S_Namespace")
        ∷ [])
    ∷ item (codes "Resource") (
        (codes "SrcK8S_Type")
        ∷ (codes "DstK8S_Type")
        ∷ (codes "SrcK8S_Name")
        ∷ (codes "DstK8S_Name")
        ∷ (codes "SrcK8S_Namespace")
        ∷ (codes "DstK8S_Namespace")
        ∷ [])
    ∷ item (codes "Subnet Label") ((codes "SrcSubnetLabel") ∷ (codes "DstSubnetLabel") ∷ [])
    ∷ item (codes "Network Name") ((codes "SrcNetworkName") ∷ (codes "DstNetworkName") ∷ [])
    ∷ item (all_options) (
        (codes "ClusterName")
        ∷ (codes "SrcZone")
        ∷ (codes "DstZone")
        ∷ (codes "SrcK8S_HostIP")
        ∷ (codes "DstK8S_HostIP")
        ∷ (codes "SrcK8S_HostName")
        ∷ (codes "DstK8S_HostName")
        ∷ (codes "SrcK8S_Namespace")
        ∷ (codes "DstK8S_Namespace")
        ∷ (codes "SrcK8S_OwnerType")
        ∷ (codes "DstK8S_OwnerType")
        ∷ (codes "SrcK8S_OwnerName")
        ∷ (codes "DstK8S_OwnerName")
        ∷ (codes "SrcK8S_Type")
        ∷ (codes "DstK8S_Type")
        ∷ (codes "SrcK8S_Name")
        ∷ (codes "DstK8S_Name")
        ∷ (codes "SrcSubnetLabel")
        ∷ (codes "DstSubnetLabel")
        ∷ (codes "SrcNetworkName")
        ∷ (codes "DstNetworkName")
        ∷ [])
    ∷ []

abbrev pub default_enrichment : Choice
default_enrichment = record { items = enrichment_items; current = 7 }
