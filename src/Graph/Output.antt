-- ===== src/Graph/Output.antt =====
-- Node outputs of crates/bastet-core/src/graph.rs. `digest` stands for the hexadecimal SHA-256 of
-- the `sha2` crate.
use Prim.Native.String.{◌++◌, len}
use bastet_workstation.Common.{
  ℕ, ◌*◌, String, not, ◌||◌, Result, ok, ◌>>◌, fail_if, is_blank, ltb, str_eq,
}
use bastet_workstation.Identity.{RunId, GraphNodeId}
use bastet_workstation.Graph.{GraphNodeOutput, GraphError, invalid_output}

abbrev pub max_node_output_bytes : ℕ
max_node_output_bytes = 256 * 1024

module _ (digest : String → String) where
  unfoldable pub output_hash : String → String
  output_hash content = "sha256:" ++ digest content

  -- `GraphNodeOutput::create`
  unfoldable pub create : GraphNodeId → RunId → String → Result GraphNodeOutput GraphError
  create node_id run_id markdown = do
    fail_if (is_blank markdown || ltb max_node_output_bytes (len markdown)) invalid_output
    ok (record {
      node_id = node_id;
      run_id = run_id;
      content_hash = output_hash markdown;
      markdown = markdown;
    })

  -- `GraphNodeOutput::validate`
  unfoldable pub validate_output : GraphNodeOutput → Result (Unit {0}) GraphError
  validate_output o =
      fail_if
        (is_blank o.markdown
          || ltb max_node_output_bytes (len o.markdown)
          || not (str_eq o.content_hash (output_hash o.markdown)))
        invalid_output
