-- ===== src/FlowCapture/Rows.antt =====
-- What is stored of a flow: the statement and the arguments of `insertFlowToDB` in cmd/flow_db.go.
use netobserv_cli.Common.{
  ◌≡◌, refl, ap, Bool, true, false, not, List, [], ◌∷◌, ◌++◌, map, length, ◌∙◌,
}
use netobserv_cli.Text.{Bytes, codes}
use netobserv_cli.GenericMap.{GenericMap, Value, null, int, get, is_zero}

-- `v != 0`, a comparison of an interface with an `int`: only an `int` can be equal.
unfoldable pub is_not_zero : Value → Bool
is_not_zero (int n) = not (is_zero n)
is_not_zero _ = true

abbrev pub common_columns : List Bytes
common_columns =
    codes "DnsErrno"
    ∷ codes "Dscp"
    ∷ codes "DstAddr"
    ∷ codes "DstPort"
    ∷ codes "Interface"
    ∷ codes "Proto"
    ∷ codes "SrcAddr"
    ∷ codes "SrcPort"
    ∷ codes "Bytes"
    ∷ codes "Packets"
    ∷ []

abbrev pub drop_columns : List Bytes
drop_columns = codes "PktDropLatestDropCause" ∷ codes "PktDropBytes" ∷ codes "PktDropPackets" ∷ []

abbrev pub dns_columns : List Bytes
dns_columns =
    codes "DnsId" ∷ codes "DnsName" ∷ codes "DnsFlagsResponseCode" ∷ codes "DnsLatencyMs" ∷ []

abbrev pub rtt_columns : List Bytes
rtt_columns = codes "TimeFlowRttNs" ∷ []

-- The cases of both `switch` statements: with drops, and with DNS.
unfoldable pub with_features : Bool → Bool → List Bytes → List Bytes
with_features true true common = common ++ drop_columns ++ dns_columns ++ rtt_columns
with_features true false common = common ++ drop_columns ++ rtt_columns
with_features false true common = common ++ dns_columns ++ rtt_columns
with_features false false common = common ++ rtt_columns

-- The columns of the statement that the first `switch` picks; it has a placeholder for each.
unfoldable pub insert_columns : GenericMap → List Bytes
unfolding is_not_zero with_features
insert_columns flow =
    with_features (is_not_zero (get (codes "PktDropPackets") flow))
      (is_not_zero (get (codes "DnsId") flow)) common_columns

-- The fields that go with the common columns; the others have the names of their columns.
abbrev pub common_fields : List Bytes
common_fields =
    codes "DNSErrno"
    ∷ codes "Dscp"
    ∷ codes "DstAddr"
    ∷ codes "DstPort"
    ∷ codes "Interface"
    ∷ codes "Proto"
    ∷ codes "SrcAddr"
    ∷ codes "SrcPort"
    ∷ codes "Bytes"
    ∷ codes "Packets"
    ∷ []

-- The arguments that the second `switch` picks.
unfoldable pub insert_arguments : GenericMap → List Value
unfolding is_not_zero with_features
insert_arguments flow =
    map (λ field. get field flow)
      (with_features (is_not_zero (get (codes "PktDropLatestDropCause") flow))
        (is_not_zero (get (codes "DnsId") flow)) common_fields)

-- JSON numbers are `float64`, so that no field of a decoded flow is an `int`.
unfoldable pub is_int : Value → Bool
is_int (int n) = true
is_int _ = false

is_int-is_not_zero : (v : Value) → is_int v ≡ false → is_not_zero v ≡ true
unfolding is_int is_not_zero
is_int-is_not_zero (int n) h = absurd (cc h)
is_int-is_not_zero _ h = refl

-- Each column of a statement with the argument for its placeholder.
abbrev pub row_of : List Bytes → List Value → List (Bytes × Value)
row_of [] arguments = []
row_of (column ∷ columns) [] = (column, null) ∷ row_of columns []
row_of (column ∷ columns) (v ∷ arguments) = (column, v) ∷ row_of columns arguments

-- Where the fields that the statement is chosen by are no `int`, as in every flow decoded from JSON,
-- the row that is inserted has these 18 columns, each with the flow's field of the same name, but
-- for the column DnsErrno, which has the field DNSErrno; also in a flow without drops and without DNS.
pub insert_all_columns :
    (flow : GenericMap)
    → is_int (get (codes "PktDropPackets") flow) ≡ false
    → is_int (get (codes "PktDropLatestDropCause") flow) ≡ false
    → is_int (get (codes "DnsId") flow) ≡ false
    → (row_of (insert_columns flow) (insert_arguments flow)
        ≡ (codes "DnsErrno", get (codes "DNSErrno") flow)
          ∷ (codes "Dscp", get (codes "Dscp") flow)
          ∷ (codes "DstAddr", get (codes "DstAddr") flow)
          ∷ (codes "DstPort", get (codes "DstPort") flow)
          ∷ (codes "Interface", get (codes "Interface") flow)
          ∷ (codes "Proto", get (codes "Proto") flow)
          ∷ (codes "SrcAddr", get (codes "SrcAddr") flow)
          ∷ (codes "SrcPort", get (codes "SrcPort") flow)
          ∷ (codes "Bytes", get (codes "Bytes") flow)
          ∷ (codes "Packets", get (codes "Packets") flow)
          ∷ (codes "PktDropLatestDropCause", get (codes "PktDropLatestDropCause") flow)
          ∷ (codes "PktDropBytes", get (codes "PktDropBytes") flow)
          ∷ (codes "PktDropPackets", get (codes "PktDropPackets") flow)
          ∷ (codes "DnsId", get (codes "DnsId") flow)
          ∷ (codes "DnsName", get (codes "DnsName") flow)
          ∷ (codes "DnsFlagsResponseCode", get (codes "DnsFlagsResponseCode") flow)
          ∷ (codes "DnsLatencyMs", get (codes "DnsLatencyMs") flow)
          ∷ (codes "TimeFlowRttNs", get (codes "TimeFlowRttNs") flow)
          ∷ [])
      × (length (insert_arguments flow) ≡ 18)
unfolding insert_columns insert_arguments with_features
insert_all_columns flow h k l =
    let x = is_int-is_not_zero _ h in
    let y = is_int-is_not_zero _ k in
    let z = is_int-is_not_zero _ l in
    let columns =
      ap (λ b. with_features b (is_not_zero (get (codes "DnsId") flow)) common_columns) x
      ∙ ap (λ b. with_features true b common_columns) z in
    let fields =
      ap (λ b. with_features b (is_not_zero (get (codes "DnsId") flow)) common_fields) y
      ∙ ap (λ b. with_features true b common_fields) z in
    let arguments = ap (map (λ field. get field flow)) fields in
    (
      ap (λ cs. row_of cs (insert_arguments flow)) columns
          ∙ ap (row_of (with_features true true common_columns)) arguments,
      ap length arguments,
    )
