-- ===== src/Display/Options/Panels.antt =====
-- The panels of the metric capture with their Prometheus queries: `panels` of cmd/options.go.
use netobserv_cli.Common.{List, [], ◌∷◌}
use netobserv_cli.Text.{codes}
use netobserv_cli.Display.Options.{OptionItem, Choice, item}

abbrev pub panels_items : List OptionItem
panels_items =
    item (codes "Nodes total") (
      (codes "sum(rate(on_demand_netobserv_node_egress_bytes_total[2m]))")
      ∷ (codes "sum(rate(on_demand_netobserv_node_egress_packets_total[2m]))")
      ∷ (codes "sum(rate(on_demand_netobserv_node_ingress_bytes_total[2m]))")
      ∷ (codes "sum(rate(on_demand_netobserv_node_ingress_packets_total[2m]))")
      ∷ [])
    ∷ item (codes "Infra namespaces total") (
        (codes
          "sum(rate(on_demand_netobserv_namespace_egress_bytes_total{K8S_FlowLayer=\"infra\"}[2m]))")
        ∷ (codes
            "sum(rate(on_demand_netobserv_namespace_egress_packets_total{K8S_FlowLayer=\"infra\"}[2m]))")
        ∷ (codes
            "sum(rate(on_demand_netobserv_namespace_ingress_bytes_total{K8S_FlowLayer=\"infra\"}[2m]))")
        ∷ (codes
            "sum(rate(on_demand_netobserv_namespace_ingress_packets_total{K8S_FlowLayer=\"infra\"}[2m]))")
        ∷ [])
    ∷ item (codes "App namespaces total") (
        (codes
          "sum(rate(on_demand_netobserv_namespace_egress_bytes_total{K8S_FlowLayer=\"app\"}[2m]))")
        ∷ (codes
            "sum(rate(on_demand_netobserv_namespace_egress_packets_total{K8S_FlowLayer=\"app\"}[2m]))")
        ∷ (codes
            "sum(rate(on_demand_netobserv_namespace_ingress_bytes_total{K8S_FlowLayer=\"app\"}[2m]))")
        ∷ (codes
            "sum(rate(on_demand_netobserv_namespace_ingress_packets_total{K8S_FlowLayer=\"app\"}[2m]))")
        ∷ [])
    ∷ item (codes "Infra workloads total") (
        (codes
          "sum(rate(on_demand_netobserv_workload_egress_bytes_total{K8S_FlowLayer=\"infra\"}[2m]))")
        ∷ (codes
            "sum(rate(on_demand_netobserv_workload_egress_packets_total{K8S_FlowLayer=\"infra\"}[2m]))")
        ∷ (codes
            "sum(rate(on_demand_netobserv_workload_ingress_bytes_total{K8S_FlowLayer=\"infra\"}[2m]))")
        ∷ (codes
            "sum(rate(on_demand_netobserv_workload_ingress_packets_total{K8S_FlowLayer=\"infra\"}[2m]))")
        ∷ [])
    ∷ item (codes "App workloads total") (
        (codes
          "sum(rate(on_demand_netobserv_workload_egress_bytes_total{K8S_FlowLayer=\"app\"}[2m]))")
        ∷ (codes
            "sum(rate(on_demand_netobserv_workload_egress_packets_total{K8S_FlowLayer=\"app\"}[2m]))")
        ∷ (codes
            "sum(rate(on_demand_netobserv_workload_ingress_bytes_total{K8S_FlowLayer=\"app\"}[2m]))")
        ∷ (codes
            "sum(rate(on_demand_netobserv_workload_ingress_packets_total{K8S_FlowLayer=\"app\"}[2m]))")
        ∷ [])
    ∷ item (codes "Top nodes") (
        (codes
          "topk(10,sum(rate(on_demand_netobserv_node_egress_bytes_total[2m])) by (SrcK8S_HostName,DstK8S_HostName))")
        ∷ (codes
            "topk(10,sum(rate(on_demand_netobserv_node_egress_packets_total[2m])) by (SrcK8S_HostName,DstK8S_HostName))")
        ∷ (codes
            "topk(10,sum(rate(on_demand_netobserv_node_ingress_bytes_total[2m])) by (SrcK8S_HostName,DstK8S_HostName))")
        ∷ (codes
            "topk(10,sum(rate(on_demand_netobserv_node_ingress_packets_total[2m])) by (SrcK8S_HostName,DstK8S_HostName))")
        ∷ [])
    ∷ item (codes "Top namespaces (infra)") (
        (codes
          "topk(10,(sum(rate(on_demand_netobserv_namespace_egress_bytes_total{K8S_FlowLayer=\"infra\",SrcK8S_Namespace!=\"\"}[2m])) by (SrcK8S_Namespace,DstK8S_Namespace)) or (sum(rate(on_demand_netobserv_namespace_egress_bytes_total{K8S_FlowLayer=\"infra\",DstK8S_Namespace!=\"\"}[2m])) by (SrcK8S_Namespace,DstK8S_Namespace)))")
        ∷ (codes
            "topk(10,(sum(rate(on_demand_netobserv_namespace_egress_packets_total{K8S_FlowLayer=\"infra\",SrcK8S_Namespace!=\"\"}[2m])) by (SrcK8S_Namespace,DstK8S_Namespace)) or (sum(rate(on_demand_netobserv_namespace_egress_packets_total{K8S_FlowLayer=\"infra\",DstK8S_Namespace!=\"\"}[2m])) by (SrcK8S_Namespace,DstK8S_Namespace)))")
        ∷ (codes
            "topk(10,(sum(rate(on_demand_netobserv_namespace_ingress_bytes_total{K8S_FlowLayer=\"infra\",SrcK8S_Namespace!=\"\"}[2m])) by (SrcK8S_Namespace,DstK8S_Namespace)) or (sum(rate(on_demand_netobserv_namespace_ingress_bytes_total{K8S_FlowLayer=\"infra\",DstK8S_Namespace!=\"\"}[2m])) by (SrcK8S_Namespace,DstK8S_Namespace)))")
        ∷ (codes
            "topk(10,(sum(rate(on_demand_netobserv_namespace_ingress_packets_total{K8S_FlowLayer=\"infra\",SrcK8S_Namespace!=\"\"}[2m])) by (SrcK8S_Namespace,DstK8S_Namespace)) or (sum(rate(on_demand_netobserv_namespace_ingress_packets_total{K8S_FlowLayer=\"infra\",DstK8S_Namespace!=\"\"}[2m])) by (SrcK8S_Namespace,DstK8S_Namespace)))")
        ∷ [])
    ∷ item (codes "Top namespaces (app)") (
        (codes
          "topk(10,(sum(rate(on_demand_netobserv_namespace_egress_bytes_total{K8S_FlowLayer=\"app\",SrcK8S_Namespace!=\"\"}[2m])) by (SrcK8S_Namespace,DstK8S_Namespace)) or (sum(rate(on_demand_netobserv_namespace_egress_bytes_total{K8S_FlowLayer=\"app\",DstK8S_Namespace!=\"\"}[2m])) by (SrcK8S_Namespace,DstK8S_Namespace)))")
        ∷ (codes
            "topk(10,(sum(rate(on_demand_netobserv_namespace_egress_packets_total{K8S_FlowLayer=\"app\",SrcK8S_Namespace!=\"\"}[2m])) by (SrcK8S_Namespace,DstK8S_Namespace)) or (sum(rate(on_demand_netobserv_namespace_egress_packets_total{K8S_FlowLayer=\"app\",DstK8S_Namespace!=\"\"}[2m])) by (SrcK8S_Namespace,DstK8S_Namespace)))")
        ∷ (codes
            "topk(10,(sum(rate(on_demand_netobserv_namespace_ingress_bytes_total{K8S_FlowLayer=\"app\",SrcK8S_Namespace!=\"\"}[2m])) by (SrcK8S_Namespace,DstK8S_Namespace)) or (sum(rate(on_demand_netobserv_namespace_ingress_bytes_total{K8S_FlowLayer=\"app\",DstK8S_Namespace!=\"\"}[2m])) by (SrcK8S_Namespace,DstK8S_Namespace)))")
        ∷ (codes
            "topk(10,(sum(rate(on_demand_netobserv_namespace_ingress_packets_total{K8S_FlowLayer=\"app\",SrcK8S_Namespace!=\"\"}[2m])) by (SrcK8S_Namespace,DstK8S_Namespace)) or (sum(rate(on_demand_netobserv_namespace_ingress_packets_total{K8S_FlowLayer=\"app\",DstK8S_Namespace!=\"\"}[2m])) by (SrcK8S_Namespace,DstK8S_Namespace)))")
        ∷ [])
    ∷ item (codes "Top workloads (infra)") (
        (codes
          "topk(10,(sum(rate(on_demand_netobserv_workload_egress_bytes_total{K8S_FlowLayer=\"infra\",SrcK8S_Namespace!=\"\"}[2m])) by (SrcK8S_Namespace,SrcK8S_OwnerName,DstK8S_Namespace,DstK8S_OwnerName)) or (sum(rate(on_demand_netobserv_workload_egress_bytes_total{K8S_FlowLayer=\"infra\",DstK8S_Namespace!=\"\"}[2m])) by (SrcK8S_Namespace,SrcK8S_OwnerName,DstK8S_Namespace,DstK8S_OwnerName)))")
        ∷ (codes
            "topk(10,(sum(rate(on_demand_netobserv_workload_egress_packets_total{K8S_FlowLayer=\"infra\",SrcK8S_Namespace!=\"\"}[2m])) by (SrcK8S_Namespace,SrcK8S_OwnerName,DstK8S_Namespace,DstK8S_OwnerName)) or (sum(rate(on_demand_netobserv_workload_egress_packets_total{K8S_FlowLayer=\"infra\",DstK8S_Namespace!=\"\"}[2m])) by (SrcK8S_Namespace,SrcK8S_OwnerName,DstK8S_Namespace,DstK8S_OwnerName)))")
        ∷ (codes
            "topk(10,(sum(rate(on_demand_netobserv_workload_ingress_bytes_total{K8S_FlowLayer=\"infra\",SrcK8S_Namespace!=\"\"}[2m])) by (SrcK8S_Namespace,SrcK8S_OwnerName,DstK8S_Namespace,DstK8S_OwnerName)) or (sum(rate(on_demand_netobserv_workload_ingress_bytes_total{K8S_FlowLayer=\"infra\",DstK8S_Namespace!=\"\"}[2m])) by (SrcK8S_Namespace,SrcK8S_OwnerName,DstK8S_Namespace,DstK8S_OwnerName)))")
        ∷ (codes
            "topk(10,(sum(rate(on_demand_netobserv_workload_ingress_packets_total{K8S_FlowLayer=\"infra\",SrcK8S_Namespace!=\"\"}[2m])) by (SrcK8S_Namespace,SrcK8S_OwnerName,DstK8S_Namespace,DstK8S_OwnerName)) or (sum(rate(on_demand_netobserv_workload_ingress_packets_total{K8S_FlowLayer=\"infra\",DstK8S_Namespace!=\"\"}[2m])) by (SrcK8S_Namespace,SrcK8S_OwnerName,DstK8S_Namespace,DstK8S_OwnerName)))")
        ∷ [])
    ∷ item (codes "Top workloads (app)") (
        (codes
          "topk(10,(sum(rate(on_demand_netobserv_workload_egress_bytes_total{K8S_FlowLayer=\"app\",SrcK8S_Namespace!=\"\"}[2m])) by (SrcK8S_Namespace,SrcK8S_OwnerName,DstK8S_Namespace,DstK8S_OwnerName)) or (sum(rate(on_demand_netobserv_workload_egress_bytes_total{K8S_FlowLayer=\"app\",DstK8S_Namespace!=\"\"}[2m])) by (SrcK8S_Namespace,SrcK8S_OwnerName,DstK8S_Namespace,DstK8S_OwnerName)))")
        ∷ (codes
            "topk(10,(sum(rate(on_demand_netobserv_workload_egress_packets_total{K8S_FlowLayer=\"app\",SrcK8S_Namespace!=\"\"}[2m])) by (SrcK8S_Namespace,SrcK8S_OwnerName,DstK8S_Namespace,DstK8S_OwnerName)) or (sum(rate(on_demand_netobserv_workload_egress_packets_total{K8S_FlowLayer=\"app\",DstK8S_Namespace!=\"\"}[2m])) by (SrcK8S_Namespace,SrcK8S_OwnerName,DstK8S_Namespace,DstK8S_OwnerName)))")
        ∷ (codes
            "topk(10,(sum(rate(on_demand_netobserv_workload_ingress_bytes_total{K8S_FlowLayer=\"app\",SrcK8S_Namespace!=\"\"}[2m])) by (SrcK8S_Namespace,SrcK8S_OwnerName,DstK8S_Namespace,DstK8S_OwnerName)) or (sum(rate(on_demand_netobserv_workload_ingress_bytes_total{K8S_FlowLayer=\"app\",DstK8S_Namespace!=\"\"}[2m])) by (SrcK8S_Namespace,SrcK8S_OwnerName,DstK8S_Namespace,DstK8S_OwnerName)))")
        ∷ (codes
            "topk(10,(sum(rate(on_demand_netobserv_workload_ingress_packets_total{K8S_FlowLayer=\"app\",SrcK8S_Namespace!=\"\"}[2m])) by (SrcK8S_Namespace,SrcK8S_OwnerName,DstK8S_Namespace,DstK8S_OwnerName)) or (sum(rate(on_demand_netobserv_workload_ingress_packets_total{K8S_FlowLayer=\"app\",DstK8S_Namespace!=\"\"}[2m])) by (SrcK8S_Namespace,SrcK8S_OwnerName,DstK8S_Namespace,DstK8S_OwnerName)))")
        ∷ [])
    ∷ item (codes "Top nodes drop + total") (
        (codes
          "topk(10,sum(rate(on_demand_netobserv_node_drop_bytes_total[2m])) by (SrcK8S_HostName,DstK8S_HostName))")
        ∷ (codes
            "topk(10,sum(rate(on_demand_netobserv_node_drop_packets_total[2m])) by (SrcK8S_HostName,DstK8S_HostName))")
        ∷ (codes "sum(rate(on_demand_netobserv_node_drop_bytess_total[2m]))")
        ∷ (codes "sum(rate(on_demand_netobserv_node_drop_packets_total[2m]))")
        ∷ [])
    ∷ item (codes "Top namespaces drop + total (infra)") (
        (codes
          "topk(10,(sum(rate(on_demand_netobserv_namespace_drop_bytes_total{K8S_FlowLayer=\"infra\",SrcK8S_Namespace!=\"\"}[2m])) by (SrcK8S_Namespace,DstK8S_Namespace)) or (sum(rate(on_demand_netobserv_namespace_drop_bytes_total{K8S_FlowLayer=\"infra\",DstK8S_Namespace!=\"\"}[2m])) by (SrcK8S_Namespace,DstK8S_Namespace)))")
        ∷ (codes
            "topk(10,(sum(rate(on_demand_netobserv_namespace_drop_packets_total{K8S_FlowLayer=\"infra\",SrcK8S_Namespace!=\"\"}[2m])) by (SrcK8S_Namespace,DstK8S_Namespace)) or (sum(rate(on_demand_netobserv_namespace_drop_packets_total{K8S_FlowLayer=\"infra\",DstK8S_Namespace!=\"\"}[2m])) by (SrcK8S_Namespace,DstK8S_Namespace)))")
        ∷ (codes
            "sum(rate(on_demand_netobserv_namespace_drop_bytes_total{K8S_FlowLayer=\"infra\",SrcK8S_Namespace!=\"\"}[2m]))")
        ∷ (codes
            "sum(rate(on_demand_netobserv_namespace_drop_packets_total{K8S_FlowLayer=\"infra\",SrcK8S_Namespace!=\"\"}[2m]))")
        ∷ [])
    ∷ item (codes "Top namespaces drop + total (app)") (
        (codes
          "topk(10,(sum(rate(on_demand_netobserv_namespace_drop_bytes_total{K8S_FlowLayer=\"app\",SrcK8S_Namespace!=\"\"}[2m])) by (SrcK8S_Namespace,DstK8S_Namespace)) or (sum(rate(on_demand_netobserv_namespace_drop_bytes_total{K8S_FlowLayer=\"app\",DstK8S_Namespace!=\"\"}[2m])) by (SrcK8S_Namespace,DstK8S_Namespace)))")
        ∷ (codes
            "topk(10,(sum(rate(on_demand_netobserv_namespace_drop_packets_total{K8S_FlowLayer=\"app\",SrcK8S_Namespace!=\"\"}[2m])) by (SrcK8S_Namespace,DstK8S_Namespace)) or (sum(rate(on_demand_netobserv_namespace_drop_packets_total{K8S_FlowLayer=\"app\",DstK8S_Namespace!=\"\"}[2m])) by (SrcK8S_Namespace,DstK8S_Namespace)))")
        ∷ (codes
            "sum(rate(on_demand_netobserv_namespace_drop_bytes_total{K8S_FlowLayer=\"app\",SrcK8S_Namespace!=\"\"}[2m]))")
        ∷ (codes
            "sum(rate(on_demand_netobserv_namespace_drop_packets_total{K8S_FlowLayer=\"app\",SrcK8S_Namespace!=\"\"}[2m]))")
        ∷ [])
    ∷ item (codes "Top workloads drop + total (infra)") (
        (codes
          "topk(10,(sum(rate(on_demand_netobserv_workload_drop_bytes_total{K8S_FlowLayer=\"infra\",SrcK8S_Namespace!=\"\"}[2m])) by (SrcK8S_Namespace,DstK8S_Namespace)) or (sum(rate(on_demand_netobserv_workload_drop_bytes_total{K8S_FlowLayer=\"infra\",DstK8S_Namespace!=\"\"}[2m])) by (SrcK8S_Namespace,DstK8S_Namespace)))")
        ∷ (codes
            "topk(10,(sum(rate(on_demand_netobserv_workload_drop_packets_total{K8S_FlowLayer=\"infra\",SrcK8S_Namespace!=\"\"}[2m])) by (SrcK8S_Namespace,DstK8S_Namespace)) or (sum(rate(on_demand_netobserv_workload_drop_packets_total{K8S_FlowLayer=\"infra\",DstK8S_Namespace!=\"\"}[2m])) by (SrcK8S_Namespace,DstK8S_Namespace)))")
        ∷ (codes
            "sum(rate(on_demand_netobserv_workload_drop_bytes_total{K8S_FlowLayer=\"infra\",SrcK8S_Namespace!=\"\"}[2m]))")
        ∷ (codes
            "sum(rate(on_demand_netobserv_workload_drop_packets_total{K8S_FlowLayer=\"infra\",SrcK8S_Namespace!=\"\"}[2m]))")
        ∷ [])
    ∷ item (codes "Top workloads drop + total (app)") (
        (codes
          "topk(10,(sum(rate(on_demand_netobserv_workload_drop_bytes_total{K8S_FlowLayer=\"app\",SrcK8S_Namespace!=\"\"}[2m])) by (SrcK8S_Namespace,SrcK8S_OwnerName,DstK8S_Namespace,DstK8S_OwnerName)) or (sum(rate(on_demand_netobserv_workload_drop_bytes_total{K8S_FlowLayer=\"app\",DstK8S_Namespace!=\"\"}[2m])) by (SrcK8S_Namespace,SrcK8S_OwnerName,DstK8S_Namespace,DstK8S_OwnerName)))")
        ∷ (codes
            "topk(10,(sum(rate(on_demand_netobserv_workload_drop_packets_total{K8S_FlowLayer=\"app\",SrcK8S_Namespace!=\"\"}[2m])) by (SrcK8S_Namespace,SrcK8S_OwnerName,DstK8S_Namespace,DstK8S_OwnerName)) or (sum(rate(on_demand_netobserv_workload_drop_packets_total{K8S_FlowLayer=\"app\",DstK8S_Namespace!=\"\"}[2m])) by (SrcK8S_Namespace,SrcK8S_OwnerName,DstK8S_Namespace,DstK8S_OwnerName)))")
        ∷ (codes
            "sum(rate(on_demand_netobserv_workload_drop_bytes_total{K8S_FlowLayer=\"app\",SrcK8S_Namespace!=\"\"}[2m]))")
        ∷ (codes
            "sum(rate(on_demand_netobserv_workload_drop_packets_total{K8S_FlowLayer=\"app\",SrcK8S_Namespace!=\"\"}[2m]))")
        ∷ [])
    ∷ item (codes "DNS latency") (
        (codes
          "histogram_quantile(0.99, sum(rate(on_demand_netobserv_node_dns_latency_seconds_bucket[2m])) by (le)) > 0")
        ∷ (codes
            "sum(rate(on_demand_netobserv_node_dns_latency_seconds_count{DnsFlagsResponseCode!=\"NoError\"}[2m]))")
        ∷ [])
    ∷ item (codes "Top node DNS latencies") (
        (codes
          "topk(10,histogram_quantile(0.5, sum(rate(on_demand_netobserv_node_dns_latency_seconds_bucket[2m])) by (le,SrcK8S_HostName,DstK8S_HostName))*1000 > 0)")
        ∷ (codes
            "topk(10,histogram_quantile(0.99, sum(rate(on_demand_netobserv_node_dns_latency_seconds_bucket[2m])) by (le,SrcK8S_HostName,DstK8S_HostName))*1000 > 0)")
        ∷ (codes
            "topk(10,sum(rate(on_demand_netobserv_node_dns_latency_seconds_count{DnsFlagsResponseCode!=\"NoError\"}[2m])) by (DnsFlagsResponseCode,SrcK8S_HostName,DstK8S_HostName))")
        ∷ [])
    ∷ item (codes "Top namespaces DNS latencies (infra)") (
        (codes
          "topk(10,(histogram_quantile(0.5, sum(rate(on_demand_netobserv_namespace_dns_latency_seconds_bucket{K8S_FlowLayer=\"infra\",SrcK8S_Namespace!=\"\"}[2m])) by (le,SrcK8S_Namespace,DstK8S_Namespace))*1000 > 0) or (histogram_quantile(0.5, sum(rate(on_demand_netobserv_namespace_dns_latency_seconds_bucket{K8S_FlowLayer=\"infra\",DstK8S_Namespace!=\"\"}[2m])) by (le,SrcK8S_Namespace,DstK8S_Namespace))*1000 > 0))")
        ∷ (codes
            "topk(10,(histogram_quantile(0.99, sum(rate(on_demand_netobserv_namespace_dns_latency_seconds_bucket{K8S_FlowLayer=\"infra\",SrcK8S_Namespace!=\"\"}[2m])) by (le,SrcK8S_Namespace,DstK8S_Namespace))*1000 > 0) or (histogram_quantile(0.99, sum(rate(on_demand_netobserv_namespace_dns_latency_seconds_bucket{K8S_FlowLayer=\"infra\",DstK8S_Namespace!=\"\"}[2m])) by (le,SrcK8S_Namespace,DstK8S_Namespace))*1000 > 0))")
        ∷ (codes
            "topk(10,(sum(rate(on_demand_netobserv_namespace_dns_latency_seconds_count{DnsFlagsResponseCode!=\"NoError\",K8S_FlowLayer=\"infra\",SrcK8S_Namespace!=\"\"}[2m])) by (DnsFlagsResponseCode,SrcK8S_Namespace,DstK8S_Namespace)) or (sum(rate(on_demand_netobserv_namespace_dns_latency_seconds_count{DnsFlagsResponseCode!=\"NoError\",K8S_FlowLayer=\"infra\",DstK8S_Namespace!=\"\"}[2m])) by (DnsFlagsResponseCode,SrcK8S_Namespace,DstK8S_Namespace)))")
        ∷ [])
    ∷ item (codes "Top namespaces DNS latencies (app)") (
        (codes
          "topk(10,(histogram_quantile(0.5, sum(rate(on_demand_netobserv_namespace_dns_latency_seconds_bucket{K8S_FlowLayer=\"app\",SrcK8S_Namespace!=\"\"}[2m])) by (le,SrcK8S_Namespace,DstK8S_Namespace))*1000 > 0) or (histogram_quantile(0.5, sum(rate(on_demand_netobserv_namespace_dns_latency_seconds_bucket{K8S_FlowLayer=\"app\",DstK8S_Namespace!=\"\"}[2m])) by (le,SrcK8S_Namespace,DstK8S_Namespace))*1000 > 0))")
        ∷ (codes
            "topk(10,(histogram_quantile(0.99, sum(rate(on_demand_netobserv_namespace_dns_latency_seconds_bucket{K8S_FlowLayer=\"app\",SrcK8S_Namespace!=\"\"}[2m])) by (le,SrcK8S_Namespace,DstK8S_Namespace))*1000 > 0) or (histogram_quantile(0.99, sum(rate(on_demand_netobserv_namespace_dns_latency_seconds_bucket{K8S_FlowLayer=\"app\",DstK8S_Namespace!=\"\"}[2m])) by (le,SrcK8S_Namespace,DstK8S_Namespace))*1000 > 0))")
        ∷ (codes
            "topk(10,(sum(rate(on_demand_netobserv_namespace_dns_latency_seconds_count{DnsFlagsResponseCode!=\"NoError\",K8S_FlowLayer=\"app\",SrcK8S_Namespace!=\"\"}[2m])) by (DnsFlagsResponseCode,SrcK8S_Namespace,DstK8S_Namespace)) or (sum(rate(on_demand_netobserv_namespace_dns_latency_seconds_count{DnsFlagsResponseCode!=\"NoError\",K8S_FlowLayer=\"app\",DstK8S_Namespace!=\"\"}[2m])) by (DnsFlagsResponseCode,SrcK8S_Namespace,DstK8S_Namespace)))")
        ∷ [])
    ∷ item (codes "Top workloads DNS latencies (infra)") (
        (codes
          "topk(10,(histogram_quantile(0.5, sum(rate(on_demand_netobserv_workload_dns_latency_seconds_bucket{K8S_FlowLayer=\"infra\",SrcK8S_Namespace!=\"\"}[2m])) by (le,SrcK8S_Namespace,SrcK8S_OwnerName,DstK8S_Namespace,DstK8S_OwnerName))*1000 > 0) or (histogram_quantile(0.5, sum(rate(on_demand_netobserv_workload_dns_latency_seconds_bucket{K8S_FlowLayer=\"infra\",DstK8S_Namespace!=\"\"}[2m])) by (le,SrcK8S_Namespace,SrcK8S_OwnerName,DstK8S_Namespace,DstK8S_OwnerName))*1000 > 0))")
        ∷ (codes
            "topk(10,(histogram_quantile(0.99, sum(rate(on_demand_netobserv_workload_dns_latency_seconds_bucket{K8S_FlowLayer=\"infra\",SrcK8S_Namespace!=\"\"}[2m])) by (le,SrcK8S_Namespace,SrcK8S_OwnerName,DstK8S_Namespace,DstK8S_OwnerName))*1000 > 0) or (histogram_quantile(0.99, sum(rate(on_demand_netobserv_workload_dns_latency_seconds_bucket{K8S_FlowLayer=\"infra\",DstK8S_Namespace!=\"\"}[2m])) by (le,SrcK8S_Namespace,SrcK8S_OwnerName,DstK8S_Namespace,DstK8S_OwnerName))*1000 > 0))")
        ∷ (codes
            "topk(10,(sum(rate(on_demand_netobserv_workload_dns_latency_seconds_count{DnsFlagsResponseCode!=\"NoError\",K8S_FlowLayer=\"infra\",SrcK8S_Namespace!=\"\"}[2m])) by (DnsFlagsResponseCode,SrcK8S_Namespace,SrcK8S_OwnerName,DstK8S_Namespace,DstK8S_OwnerName)) or (sum(rate(on_demand_netobserv_workload_dns_latency_seconds_count{DnsFlagsResponseCode!=\"NoError\",K8S_FlowLayer=\"infra\",DstK8S_Namespace!=\"\"}[2m])) by (DnsFlagsResponseCode,SrcK8S_Namespace,SrcK8S_OwnerName,DstK8S_Namespace,DstK8S_OwnerName)))")
        ∷ [])
    ∷ item (codes "Top workloads DNS latencies (app)") (
        (codes
          "topk(10,(histogram_quantile(0.5, sum(rate(on_demand_netobserv_workload_dns_latency_seconds_bucket{K8S_FlowLayer=\"app\",SrcK8S_Namespace!=\"\"}[2m])) by (le,SrcK8S_Namespace,SrcK8S_OwnerName,DstK8S_Namespace,DstK8S_OwnerName))*1000 > 0) or (histogram_quantile(0.5, sum(rate(on_demand_netobserv_workload_dns_latency_seconds_bucket{K8S_FlowLayer=\"app\",DstK8S_Namespace!=\"\"}[2m])) by (le,SrcK8S_Namespace,SrcK8S_OwnerName,DstK8S_Namespace,DstK8S_OwnerName))*1000 > 0))")
        ∷ (codes
            "topk(10,(histogram_quantile(0.99, sum(rate(on_demand_netobserv_workload_dns_latency_seconds_bucket{K8S_FlowLayer=\"app\",SrcK8S_Namespace!=\"\"}[2m])) by (le,SrcK8S_Namespace,SrcK8S_OwnerName,DstK8S_Namespace,DstK8S_OwnerName))*1000 > 0) or (histogram_quantile(0.99, sum(rate(on_demand_netobserv_workload_dns_latency_seconds_bucket{K8S_FlowLayer=\"app\",DstK8S_Namespace!=\"\"}[2m])) by (le,SrcK8S_Namespace,SrcK8S_OwnerName,DstK8S_Namespace,DstK8S_OwnerName))*1000 > 0))")
        ∷ (codes
            "topk(10,(sum(rate(on_demand_netobserv_workload_dns_latency_seconds_count{DnsFlagsResponseCode!=\"NoError\",K8S_FlowLayer=\"app\",SrcK8S_Namespace!=\"\"}[2m])) by (DnsFlagsResponseCode,SrcK8S_Namespace,SrcK8S_OwnerName,DstK8S_Namespace,DstK8S_OwnerName)) or (sum(rate(on_demand_netobserv_workload_dns_latency_seconds_count{DnsFlagsResponseCode!=\"NoError\",K8S_FlowLayer=\"app\",DstK8S_Namespace!=\"\"}[2m])) by (DnsFlagsResponseCode,SrcK8S_Namespace,SrcK8S_OwnerName,DstK8S_Namespace,DstK8S_OwnerName)))")
        ∷ [])
    ∷ item (codes "Top node RTT + total") (
        (codes
          "topk(10,histogram_quantile(0.5, sum(rate(on_demand_netobserv_node_rtt_seconds_bucket[2m])) by (le,SrcK8S_HostName,DstK8S_HostName))*1000 > 0)")
        ∷ (codes
            "topk(10,histogram_quantile(0.99, sum(rate(on_demand_netobserv_node_rtt_seconds_bucket[2m])) by (le,SrcK8S_HostName,DstK8S_HostName))*1000 > 0)")
        ∷ (codes
            "histogram_quantile(0.99, sum(rate(on_demand_netobserv_node_rtt_seconds_bucket[2m])) by (le)) > 0")
        ∷ [])
    ∷ item (codes "Top namespace RTT + total (infra)") (
        (codes
          "topk(10,(histogram_quantile(0.5, sum(rate(on_demand_netobserv_namespace_rtt_seconds_bucket{K8S_FlowLayer=\"infra\",SrcK8S_Namespace!=\"\"}[2m])) by (le,SrcK8S_Namespace,DstK8S_Namespace))*1000 > 0) or (histogram_quantile(0.5, sum(rate(on_demand_netobserv_namespace_rtt_seconds_bucket{K8S_FlowLayer=\"infra\",DstK8S_Namespace!=\"\"}[2m])) by (le,SrcK8S_Namespace,DstK8S_Namespace))*1000 > 0))")
        ∷ (codes
            "topk(10,(histogram_quantile(0.99, sum(rate(on_demand_netobserv_namespace_rtt_seconds_bucket{K8S_FlowLayer=\"infra\",SrcK8S_Namespace!=\"\"}[2m])) by (le,SrcK8S_Namespace,DstK8S_Namespace))*1000 > 0) or (histogram_quantile(0.99, sum(rate(on_demand_netobserv_namespace_rtt_seconds_bucket{K8S_FlowLayer=\"infra\",DstK8S_Namespace!=\"\"}[2m])) by (le,SrcK8S_Namespace,DstK8S_Namespace))*1000 > 0))")
        ∷ (codes
            "histogram_quantile(0.99, sum(rate(on_demand_netobserv_namespace_rtt_seconds_bucket{K8S_FlowLayer=\"infra\",SrcK8S_Namespace!=\"\"}[2m])) by (le)) > 0")
        ∷ [])
    ∷ item (codes "Top namespace RTT + total (app)") (
        (codes
          "topk(10,(histogram_quantile(0.5, sum(rate(on_demand_netobserv_namespace_rtt_seconds_bucket{K8S_FlowLayer=\"app\",SrcK8S_Namespace!=\"\"}[2m])) by (le,SrcK8S_Namespace,DstK8S_Namespace))*1000 > 0) or (histogram_quantile(0.5, sum(rate(on_demand_netobserv_namespace_rtt_seconds_bucket{K8S_FlowLayer=\"app\",DstK8S_Namespace!=\"\"}[2m])) by (le,SrcK8S_Namespace,DstK8S_Namespace))*1000 > 0))")
        ∷ (codes
            "topk(10,(histogram_quantile(0.99, sum(rate(on_demand_netobserv_namespace_rtt_seconds_bucket{K8S_FlowLayer=\"app\",SrcK8S_Namespace!=\"\"}[2m])) by (le,SrcK8S_Namespace,DstK8S_Namespace))*1000 > 0) or (histogram_quantile(0.99, sum(rate(on_demand_netobserv_namespace_rtt_seconds_bucket{K8S_FlowLayer=\"app\",DstK8S_Namespace!=\"\"}[2m])) by (le,SrcK8S_Namespace,DstK8S_Namespace))*1000 > 0))")
        ∷ (codes
            "histogram_quantile(0.99, sum(rate(on_demand_netobserv_namespace_rtt_seconds_bucket{K8S_FlowLayer=\"app\",SrcK8S_Namespace!=\"\"}[2m])) by (le)) > 0")
        ∷ [])
    ∷ item (codes "Top workload RTT + total (infra)") (
        (codes
          "topk(10,(histogram_quantile(0.5, sum(rate(on_demand_netobserv_workload_rtt_seconds_bucket{K8S_FlowLayer=\"infra\",SrcK8S_Namespace!=\"\"}[2m])) by (le,SrcK8S_Namespace,SrcK8S_OwnerName,DstK8S_Namespace,DstK8S_OwnerName))*1000 > 0) or (histogram_quantile(0.5, sum(rate(on_demand_netobserv_workload_rtt_seconds_bucket{K8S_FlowLayer=\"infra\",DstK8S_Namespace!=\"\"}[2m])) by (le,SrcK8S_Namespace,SrcK8S_OwnerName,DstK8S_Namespace,DstK8S_OwnerName))*1000 > 0))")
        ∷ (codes
            "topk(10,(histogram_quantile(0.99, sum(rate(on_demand_netobserv_workload_rtt_seconds_bucket{K8S_FlowLayer=\"infra\",SrcK8S_Namespace!=\"\"}[2m])) by (le,SrcK8S_Namespace,SrcK8S_OwnerName,DstK8S_Namespace,DstK8S_OwnerName))*1000 > 0) or (histogram_quantile(0.99, sum(rate(on_demand_netobserv_workload_rtt_seconds_bucket{K8S_FlowLayer=\"infra\",DstK8S_Namespace!=\"\"}[2m])) by (le,SrcK8S_Namespace,SrcK8S_OwnerName,DstK8S_Namespace,DstK8S_OwnerName))*1000 > 0))")
        ∷ (codes
            "histogram_quantile(0.99, sum(rate(on_demand_netobserv_workload_rtt_seconds_bucket{K8S_FlowLayer=\"infra\",SrcK8S_Namespace!=\"\"}[2m])) by (le)) > 0")
        ∷ [])
    ∷ item (codes "Top workload RTT + total (app)") (
        (codes
          "topk(10,(histogram_quantile(0.5, sum(rate(on_demand_netobserv_workload_rtt_seconds_bucket{K8S_FlowLayer=\"app\",SrcK8S_Namespace!=\"\"}[2m])) by (le,SrcK8S_Namespace,SrcK8S_OwnerName,DstK8S_Namespace,DstK8S_OwnerName))*1000 > 0) or (histogram_quantile(0.5, sum(rate(on_demand_netobserv_workload_rtt_seconds_bucket{K8S_FlowLayer=\"app\",DstK8S_Namespace!=\"\"}[2m])) by (le,SrcK8S_Namespace,SrcK8S_OwnerName,DstK8S_Namespace,DstK8S_OwnerName))*1000 > 0))")
        ∷ (codes
            "topk(10,(histogram_quantile(0.99, sum(rate(on_demand_netobserv_workload_rtt_seconds_bucket{K8S_FlowLayer=\"app\",SrcK8S_Namespace!=\"\"}[2m])) by (le,SrcK8S_Namespace,SrcK8S_OwnerName,DstK8S_Namespace,DstK8S_OwnerName))*1000 > 0) or (histogram_quantile(0.99, sum(rate(on_demand_netobserv_workload_rtt_seconds_bucket{K8S_FlowLayer=\"app\",DstK8S_Namespace!=\"\"}[2m])) by (le,SrcK8S_Namespace,SrcK8S_OwnerName,DstK8S_Namespace,DstK8S_OwnerName))*1000 > 0))")
        ∷ (codes
            "histogram_quantile(0.99, sum(rate(on_demand_netobserv_workload_rtt_seconds_bucket{K8S_FlowLayer=\"app\",SrcK8S_Namespace!=\"\"}[2m])) by (le)) > 0")
        ∷ [])
    ∷ item (codes "Top node network events + total") (
        (codes
          "topk(10,sum(rate(on_demand_netobserv_node_network_policy_events_total{action=~\"allow.*\"}[2m])) by (type,direction,SrcK8S_HostName,DstK8S_HostName))")
        ∷ (codes
            "topk(10,sum(rate(on_demand_netobserv_node_network_policy_events_total{action=\"drop\"}[2m])) by (type,direction,SrcK8S_HostName,DstK8S_HostName))")
        ∷ (codes
            "sum(rate(on_demand_netobserv_node_network_policy_events_total{action=~\"allow.*\"}[2m]))")
        ∷ (codes
            "sum(rate(on_demand_netobserv_node_network_policy_events_total{action=\"drop\"}[2m]))")
        ∷ [])
    ∷ item (codes "Top namespace network events + total (infra)") (
        (codes
          "topk(10,(sum(rate(on_demand_netobserv_namespace_network_policy_events_total{action=~\"allow.*\",K8S_FlowLayer=\"infra\",SrcK8S_Namespace!=\"\"}[2m])) by (type,direction,SrcK8S_Namespace,DstK8S_Namespace)) or (sum(rate(on_demand_netobserv_namespace_network_policy_events_total{action=~\"allow.*\",K8S_FlowLayer=\"infra\",DstK8S_Namespace!=\"\"}[2m])) by (type,direction,SrcK8S_Namespace,DstK8S_Namespace)))")
        ∷ (codes
            "topk(10,(sum(rate(on_demand_netobserv_namespace_network_policy_events_total{action=\"drop\",K8S_FlowLayer=\"infra\",SrcK8S_Namespace!=\"\"}[2m])) by (type,direction,SrcK8S_Namespace,DstK8S_Namespace)) or (sum(rate(on_demand_netobserv_namespace_network_policy_events_total{action=\"drop\",K8S_FlowLayer=\"infra\",DstK8S_Namespace!=\"\"}[2m])) by (type,direction,SrcK8S_Namespace,DstK8S_Namespace)))")
        ∷ (codes
            "sum(rate(on_demand_netobserv_namespace_network_policy_events_total{action=~\"allow.*\",K8S_FlowLayer=\"infra\"}[2m]))")
        ∷ (codes
            "sum(rate(on_demand_netobserv_namespace_network_policy_events_total{action=\"drop\",K8S_FlowLayer=\"infra\"}[2m]))")
        ∷ [])
    ∷ item (codes "Top namespace network events + total (app)") (
        (codes
          "topk(10,(sum(rate(on_demand_netobserv_namespace_network_policy_events_total{action=~\"allow.*\",K8S_FlowLayer=\"app\",SrcK8S_Namespace!=\"\"}[2m])) by (type,direction,SrcK8S_Namespace,DstK8S_Namespace)) or (sum(rate(on_demand_netobserv_namespace_network_policy_events_total{action=~\"allow.*\",K8S_FlowLayer=\"app\",DstK8S_Namespace!=\"\"}[2m])) by (type,direction,SrcK8S_Namespace,DstK8S_Namespace)))")
        ∷ (codes
            "topk(10,(sum(rate(on_demand_netobserv_namespace_network_policy_events_total{action=\"drop\",K8S_FlowLayer=\"app\",SrcK8S_Namespace!=\"\"}[2m])) by (type,direction,SrcK8S_Namespace,DstK8S_Namespace)) or (sum(rate(on_demand_netobserv_namespace_network_policy_events_total{action=\"drop\",K8S_FlowLayer=\"app\",DstK8S_Namespace!=\"\"}[2m])) by (type,direction,SrcK8S_Namespace,DstK8S_Namespace)))")
        ∷ (codes
            "sum(rate(on_demand_netobserv_namespace_network_policy_events_total{action=~\"allow.*\",K8S_FlowLayer=\"app\"}[2m]))")
        ∷ (codes
            "sum(rate(on_demand_netobserv_namespace_network_policy_events_total{action=\"drop\",K8S_FlowLayer=\"app\"}[2m]))")
        ∷ [])
    ∷ item (codes "Top workload network events + total (infra)") (
        (codes
          "topk(10,(sum(rate(on_demand_netobserv_workload_network_policy_events_total{action=~\"allow.*\",K8S_FlowLayer=\"infra\",SrcK8S_workload!=\"\"}[2m])) by (type,direction,SrcK8S_workload,DstK8S_workload)) or (sum(rate(on_demand_netobserv_workload_network_policy_events_total{action=~\"allow.*\",K8S_FlowLayer=\"infra\",DstK8S_workload!=\"\"}[2m])) by (type,direction,SrcK8S_workload,DstK8S_workload)))")
        ∷ (codes
            "topk(10,(sum(rate(on_demand_netobserv_workload_network_policy_events_total{action=\"drop\",K8S_FlowLayer=\"infra\",SrcK8S_workload!=\"\"}[2m])) by (type,direction,SrcK8S_workload,DstK8S_workload)) or (sum(rate(on_demand_netobserv_workload_network_policy_events_total{action=\"drop\",K8S_FlowLayer=\"infra\",DstK8S_workload!=\"\"}[2m])) by (type,direction,SrcK8S_workload,DstK8S_workload)))")
        ∷ (codes
            "sum(rate(on_demand_netobserv_workload_network_policy_events_total{action=~\"allow.*\",K8S_FlowLayer=\"infra\"}[2m]))")
        ∷ (codes
            "sum(rate(on_demand_netobserv_workload_network_policy_events_total{action=\"drop\",K8S_FlowLayer=\"infra\"}[2m]))")
        ∷ [])
    ∷ item (codes "Top workload network events + total (app)") (
        (codes
          "topk(10,(sum(rate(on_demand_netobserv_workload_network_policy_events_total{action=~\"allow.*\",K8S_FlowLayer=\"app\",SrcK8S_workload!=\"\"}[2m])) by (type,direction,SrcK8S_workload,DstK8S_workload)) or (sum(rate(on_demand_netobserv_workload_network_policy_events_total{action=~\"allow.*\",K8S_FlowLayer=\"app\",DstK8S_workload!=\"\"}[2m])) by (type,direction,SrcK8S_workload,DstK8S_workload)))")
        ∷ (codes
            "topk(10,(sum(rate(on_demand_netobserv_workload_network_policy_events_total{action=\"drop\",K8S_FlowLayer=\"app\",SrcK8S_workload!=\"\"}[2m])) by (type,direction,SrcK8S_workload,DstK8S_workload)) or (sum(rate(on_demand_netobserv_workload_network_policy_events_total{action=\"drop\",K8S_FlowLayer=\"app\",DstK8S_workload!=\"\"}[2m])) by (type,direction,SrcK8S_workload,DstK8S_workload)))")
        ∷ (codes
            "sum(rate(on_demand_netobserv_workload_network_policy_events_total{action=~\"allow.*\",K8S_FlowLayer=\"app\"}[2m]))")
        ∷ (codes
            "sum(rate(on_demand_netobserv_workload_network_policy_events_total{action=\"drop\",K8S_FlowLayer=\"app\"}[2m]))")
        ∷ [])
    ∷ []

abbrev pub default_panels : Choice
default_panels = record { items = panels_items; current = 0 }
