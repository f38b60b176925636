-- ===== src/Prometheus/Queries.antt =====
-- pkg/plugins/prometheus/queries.go: the queries of the presets. A text of several lines is their list.
use Prim.Native.String.{◌++◌ as append}
use consul_release_controlle.Prelude.{String, List, [], ◌∷◌}

abbrev joined : List String → String
joined [] = ""
joined (l ∷ ls) = append l (append "\n" (joined ls))

abbrev pub kubernetes_envoy_request_success : String
kubernetes_envoy_request_success = joined (
    "" ∷ "sum(" ∷ "\trate(" ∷ "    envoy_cluster_upstream_rq{"
    ∷ "      namespace=\"{{ .Namespace }}\"," ∷ "      pod!~\"{{ .ReleaseName }}-primary.*\","
    ∷ "      pod=~\"{{ .CandidateName }}.*\"," ∷ "      envoy_cluster_name=\"local_app\","
    ∷ "      envoy_response_code!~\"5.*\"" ∷ "    }[{{ .Interval }}]" ∷ "  )" ∷ ")" ∷ "/" ∷ "sum("
    ∷ "  rate(" ∷ "    envoy_cluster_upstream_rq{" ∷ "      namespace=\"{{ .Namespace }}\","
    ∷ "      envoy_cluster_name=\"local_app\"," ∷ "      pod!~\"{{ .ReleaseName }}-primary.*\","
    ∷ "      pod=~\"{{ .CandidateName }}.*\"," ∷ "    }[{{ .Interval }}]" ∷ "  )" ∷ ")" ∷ "* 100"
    ∷ [])

abbrev pub kubernetes_envoy_request_duration : String
kubernetes_envoy_request_duration = joined (
    "" ∷ "histogram_quantile(" ∷ "  0.99," ∷ "  sum(" ∷ "    rate("
    ∷ "      envoy_cluster_upstream_rq_time_bucket{" ∷ "        namespace=\"{{ .Namespace }}\","
    ∷ "        envoy_cluster_name=\"local_app\"," ∷ "      \tpod!~\"{{ .ReleaseName }}-primary.*\","
    ∷ "      \tpod=~\"{{ .CandidateName }}.*\"," ∷ "      }[{{ .Interval }}]" ∷ "    )"
    ∷ "  ) by (le)" ∷ ")" ∷ [])

abbrev pub nomad_envoy_request_success : String
nomad_envoy_request_success = joined (
    "" ∷ "sum(" ∷ "\trate(" ∷ "    envoy_cluster_upstream_rq{"
    ∷ "      job!~\"{{ .ReleaseName }}-primary\"," ∷ "      job=~\"{{ .CandidateName }}\","
    ∷ "      envoy_cluster_name=\"local_app\"," ∷ "      envoy_response_code!~\"5.*\""
    ∷ "    }[{{ .Interval }}]" ∷ "  )" ∷ ")" ∷ "/" ∷ "sum(" ∷ "  rate("
    ∷ "    envoy_cluster_upstream_rq{" ∷ "      envoy_cluster_name=\"local_app\","
    ∷ "      job!~\"{{ .ReleaseName }}-primary\"," ∷ "      job=~\"{{ .CandidateName }}\","
    ∷ "    }[{{ .Interval }}]" ∷ "  )" ∷ ")" ∷ "* 100" ∷ [])

abbrev pub nomad_envoy_request_duration : String
nomad_envoy_request_duration = joined (
    "" ∷ "histogram_quantile(" ∷ "  0.99," ∷ "  sum(" ∷ "    rate("
    ∷ "      envoy_cluster_upstream_rq_time_bucket{" ∷ "        envoy_cluster_name=\"local_app\","
    ∷ "      \tjob!~\"{{ .ReleaseName }}-primary\"," ∷ "      \tjob=~\"{{ .CandidateName }}\","
    ∷ "      }[{{ .Interval }}]" ∷ "    )" ∷ "  ) by (le)" ∷ ")" ∷ [])
