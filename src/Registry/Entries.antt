-- ===== src/Registry/Entries.antt =====
-- lib/capability-registry.js: the built-in entries.
use view_limits.Base.{false, List, [], ◌∷◌, String}
use view_limits.Value.{Value, finite, num, str, arr, obj, cons, nil, Items, field, end, Fields}

abbrev text_items : List String → Items
text_items [] = nil
text_items (s ∷ rest) = cons (str s) (text_items rest)

abbrev texts : List String → Value
texts names = arr (text_items names)

-- `DEFAULT_ENTRIES.families`.
abbrev default_families : Fields
default_families = field "anthropic" (obj (field "aliases" (texts ("claude" ∷ [])) end)) (
    field "openai" (obj (field "aliases" (texts ("gpt" ∷ "chatgpt" ∷ [])) end)) (
      field "moonshot" (obj (field "aliases" (texts ("kimi" ∷ "moonshotai" ∷ [])) end)) (
        field "zai" (obj (field "aliases" (texts ("glm" ∷ "zhipu" ∷ "z-ai" ∷ [])) end)) (
          field "deepseek" (obj (field "aliases" (texts []) end)) (
            field "minimax" (obj (field "aliases" (texts ("abab" ∷ [])) end))
              (field "google" (obj (field "aliases" (texts ("gemini" ∷ [])) end)) end))))))

-- `DEFAULT_ENTRIES.models`.
abbrev default_models : Fields
default_models =
    field "claude-sonnet-4"
      (obj (
        field "family" (str "anthropic") (
          field "aliases" (texts ("claude-sonnet-4-5" ∷ "claude-sonnet" ∷ "sonnet" ∷ [])) (
            field "taskCapabilities"
              (texts ("code" ∷ "review" ∷ "planning" ∷ "tool-use" ∷ "long-context" ∷ [])) end))))
      (field "claude-opus-4"
        (obj (
          field "family" (str "anthropic") (
            field "aliases" (texts ("claude-opus-4-1" ∷ "claude-opus" ∷ "opus" ∷ [])) (
              field "taskCapabilities"
                (texts
                  ("code" ∷ "review" ∷ "planning" ∷ "reasoning" ∷ "tool-use" ∷ "long-context" ∷ []))
                end))))
        (field "claude-haiku-4"
          (obj (
            field "family" (str "anthropic") (
              field "aliases" (texts ("claude-haiku-4-5" ∷ "haiku" ∷ []))
                (field "taskCapabilities" (texts ("code" ∷ "tool-use" ∷ [])) end))))
          (field "kimi-k2"
            (obj (
              field "family" (str "moonshot") (
                field "aliases" (texts ("kimi" ∷ "kimi-k2-instruct" ∷ "kimi-for-coding" ∷ [])) (
                  field "taskCapabilities" (texts ("code" ∷ "tool-use" ∷ "long-context" ∷ []))
                    end))))
            (field "glm-4.6"
              (obj (
                field "family" (str "zai") (
                  field "aliases" (texts ("glm" ∷ "glm-4.5" ∷ []))
                    (field "taskCapabilities" (texts ("code" ∷ "tool-use" ∷ [])) end))))
              (field "deepseek-v3.2"
                (obj (
                  field "family" (str "deepseek") (
                    field "aliases"
                      (texts ("deepseek" ∷ "deepseek-chat" ∷ "deepseek-reasoner" ∷ []))
                      (field "taskCapabilities" (texts ("code" ∷ "reasoning" ∷ [])) end))))
                (field "minimax-m2"
                  (obj (
                    field "family" (str "minimax") (
                      field "aliases" (texts ("minimax" ∷ [])) (
                        field "taskCapabilities" (texts ("code" ∷ "tool-use" ∷ "long-context" ∷ []))
                          end))))
                  (field "gpt-5"
                    (obj (
                      field "family" (str "openai") (
                        field "aliases" (texts ("gpt-5-codex" ∷ [])) (
                          field "taskCapabilities" (texts ("code" ∷ "reasoning" ∷ "tool-use" ∷ []))
                            end))))
                    (field "gemini-2.5-pro"
                      (obj (
                        field "family" (str "google") (
                          field "aliases" (texts ("gemini" ∷ [])) (
                            field "taskCapabilities"
                              (texts ("code" ∷ "long-context" ∷ "vision" ∷ "tool-use" ∷ [])) end))))
                      end))))))))

-- `DEFAULT_ENTRIES.harnesses`.
abbrev default_harnesses : Fields
default_harnesses =
    field "claude"
      (obj (
        field "aliases" (texts ("claude-code" ∷ [])) (
          field "executionCapabilities"
            (texts ("dispatch" ∷ "subagent" ∷ "tools" ∷ "mcp" ∷ "shell" ∷ "file-edit" ∷ []))
            (field "skills" (texts ("dev" ∷ "review" ∷ [])) end))))
      (field "codex"
        (obj (
          field "aliases" (texts ("codex-cli" ∷ [])) (
            field "executionCapabilities" (texts ("shell" ∷ "file-edit" ∷ "tools" ∷ []))
              (field "skills" (texts []) end))))
        (field "opencode"
          (obj (
            field "aliases" (texts []) (
              field "executionCapabilities" (texts ("shell" ∷ "file-edit" ∷ "tools" ∷ []))
                (field "skills" (texts []) end))))
          end))

-- `DEFAULT_ENTRIES`.
abbrev pub default_entries : Value
default_entries = obj (
    field "schemaVersion" (num (finite false 1 0)) (
      field "families" (obj default_families)
        (field "models" (obj default_models) (field "harnesses" (obj default_harnesses) end))))
