-- ===== src/Tests/Jsons.antt =====
-- The JSON form of the sample pipeline, with a reader that takes the integers as they are.
use attractor.Prelude.{Bool, true, false, ◌≡◌, refl, [], ℤ, Result, ok, err, arith}
use attractor.Json.{Json, integer, JsonError, library_error}
use attractor.Types.{NodeId, NodeShape, mdiamond, msquare, box}
use attractor.Graph.{to_base}
use attractor.Tests.Samples.{pipeline, node_of, start_id, gate_id, exit_id}
use attractor.GraphJson.Access.{Reader, IsReader}
use attractor.GraphJson.Nodes.{named_subgraph}
use attractor.GraphJson.NodeTrip.{IsStorable}
use attractor.GraphJson.Graphs.{graph_to_json, graph_from_json}
use attractor.GraphJson.VariantTrip.{HasNumbers, shape_of}
use attractor.GraphJson.RoundTrip.{IsWritableGraph, HasWeight, graph_from_json-to_json}

unfoldable plain_integer : Json → Result JsonError ℤ
plain_integer (integer i) = ok i
plain_integer j = err library_error

abbrev plain_reader : Reader
plain_reader = record { get_int = plain_integer; get_int64 = plain_integer }

plain_reader-IsReader : IsReader plain_reader
unfolding plain_integer
plain_reader-IsReader = record { reads_int = λ n h. refl; reads_int64 = λ n h. refl }

plain_base : (id : NodeId) (s : NodeShape) (b : Bool) (t : NodeId) → IsStorable (node_of id s b t)
unfolding named_subgraph
plain_base id s b t = record {
  retries = λ k h. absurd (cc);
  timeout_at_least = λ k h. absurd (cc);
  timeout_at_most = λ k h. absurd (cc);
  subgraph = refl;
}

pipeline-IsWritableGraph : IsWritableGraph pipeline
unfolding HasWeight HasNumbers shape_of to_base
pipeline-IsWritableGraph = record {
  retries = omega arith;
  nodes = (
    record { base = plain_base start_id mdiamond false []; shape = refl; numbers = tt },
    (
      record { base = plain_base gate_id box true start_id; shape = refl; numbers = tt },
      (record { base = plain_base exit_id msquare false []; shape = refl; numbers = tt }, tt),
    ),
  );
  edges = (omega arith, (omega arith, tt));
}

graph_from_json-to_json_example :
    graph_from_json (λ z. []) plain_reader (graph_to_json pipeline) ≡ ok pipeline
graph_from_json-to_json_example =
    graph_from_json-to_json (λ z. []) plain_reader plain_reader-IsReader pipeline
      pipeline-IsWritableGraph
