-- ===== src/Workload/Messages.antt =====
-- The messages of compareAnnotations of controllers/utils.go.
use Prim.Native.String.{String, ◌++◌}

unfoldable pub added_message : String → String → String
added_message key value = "annotation '" ++ key ++ "' added with value: " ++ value

unfoldable pub changed_message : String → String → String → String
changed_message key from to =
    "annotation '" ++ key ++ "' changed from '" ++ from ++ "' to '" ++ to ++ "'"

unfoldable pub removed_message : String → String → String
removed_message key value = "annotation '" ++ key ++ "' with value '" ++ value ++ "' removed"
