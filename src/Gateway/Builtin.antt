-- ===== src/Gateway/Builtin.antt =====
-- internal/modelgateway/app/capabilities/capabilities.go: the table of the models that are known.
use harness_ai.Prelude.{String, true, false, List, [], ◌∷◌}
use harness_ai.Llm.{Capabilities}

-- `builtinCaps`
unfoldable pub builtin_caps : List (String × Capabilities)
builtin_caps =
    (
      "claude-3-5-sonnet-20241022",
      record {
        supports_tools = true;
        supports_parallel_tool_calls = true;
        supports_streaming_tool_calls = true;
        supports_vision = true;
        supports_system_prompt = true;
        supports_thinking = false;
        supports_token_counting = true;
        supports_json_schema_strict = false;
        max_output_tokens = 8192;
      },
    )
    ∷ (
      "claude-3-5-haiku-20241105",
      record {
        supports_tools = true;
        supports_parallel_tool_calls = true;
        supports_streaming_tool_calls = true;
        supports_vision = true;
        supports_system_prompt = true;
        supports_thinking = false;
        supports_token_counting = true;
        supports_json_schema_strict = false;
        max_output_tokens = 8192;
      },
    )
    ∷ (
      "claude-3-haiku-20240307",
      record {
        supports_tools = true;
        supports_parallel_tool_calls = true;
        supports_streaming_tool_calls = true;
        supports_vision = true;
        supports_system_prompt = true;
        supports_thinking = false;
        supports_token_counting = true;
        supports_json_schema_strict = false;
        max_output_tokens = 4096;
      },
    )
    ∷ (
      "claude-3-opus-20240229",
      record {
        supports_tools = true;
        supports_parallel_tool_calls = true;
        supports_streaming_tool_calls = true;
        supports_vision = true;
        supports_system_prompt = true;
        supports_thinking = false;
        supports_token_counting = true;
        supports_json_schema_strict = false;
        max_output_tokens = 4096;
      },
    )
    ∷ (
      "claude-3-7-sonnet-20250219",
      record {
        supports_tools = true;
        supports_parallel_tool_calls = true;
        supports_streaming_tool_calls = true;
        supports_vision = true;
        supports_system_prompt = true;
        supports_thinking = true;
        supports_token_counting = true;
        supports_json_schema_strict = true;
        max_output_tokens = 16000;
      },
    )
    ∷ (
      "claude-opus-4-0",
      record {
        supports_tools = true;
        supports_parallel_tool_calls = true;
        supports_streaming_tool_calls = true;
        supports_vision = true;
        supports_system_prompt = true;
        supports_thinking = true;
        supports_token_counting = true;
        supports_json_schema_strict = true;
        max_output_tokens = 32000;
      },
    )
    ∷ (
      "claude-sonnet-4-0",
      record {
        supports_tools = true;
        supports_parallel_tool_calls = true;
        supports_streaming_tool_calls = true;
        supports_vision = true;
        supports_system_prompt = true;
        supports_thinking = true;
        supports_token_counting = true;
        supports_json_schema_strict = true;
        max_output_tokens = 16000;
      },
    )
    ∷ (
      "gemini-2.5-pro",
      record {
        supports_tools = true;
        supports_parallel_tool_calls = true;
        supports_streaming_tool_calls = true;
        supports_vision = true;
        supports_system_prompt = true;
        supports_thinking = true;
        supports_token_counting = true;
        supports_json_schema_strict = true;
        max_output_tokens = 65536;
      },
    )
    ∷ (
      "gemini-2.5-flash",
      record {
        supports_tools = true;
        supports_parallel_tool_calls = true;
        supports_streaming_tool_calls = true;
        supports_vision = true;
        supports_system_prompt = true;
        supports_thinking = true;
        supports_token_counting = true;
        supports_json_schema_strict = true;
        max_output_tokens = 65536;
      },
    )
    ∷ (
      "gemini-2.0-flash",
      record {
        supports_tools = true;
        supports_parallel_tool_calls = true;
        supports_streaming_tool_calls = true;
        supports_vision = true;
        supports_system_prompt = true;
        supports_thinking = false;
        supports_token_counting = true;
        supports_json_schema_strict = true;
        max_output_tokens = 8192;
      },
    )
    ∷ (
      "gemini-2.0-flash-lite",
      record {
        supports_tools = true;
        supports_parallel_tool_calls = false;
        supports_streaming_tool_calls = false;
        supports_vision = true;
        supports_system_prompt = true;
        supports_thinking = false;
        supports_token_counting = true;
        supports_json_schema_strict = false;
        max_output_tokens = 8192;
      },
    )
    ∷ (
      "gpt-4o",
      record {
        supports_tools = true;
        supports_parallel_tool_calls = true;
        supports_streaming_tool_calls = true;
        supports_vision = true;
        supports_system_prompt = true;
        supports_thinking = false;
        supports_token_counting = false;
        supports_json_schema_strict = true;
        max_output_tokens = 16384;
      },
    )
    ∷ (
      "gpt-4o-mini",
      record {
        supports_tools = true;
        supports_parallel_tool_calls = true;
        supports_streaming_tool_calls = true;
        supports_vision = true;
        supports_system_prompt = true;
        supports_thinking = false;
        supports_token_counting = false;
        supports_json_schema_strict = true;
        max_output_tokens = 16384;
      },
    )
    ∷ (
      "o3",
      record {
        supports_tools = true;
        supports_parallel_tool_calls = true;
        supports_streaming_tool_calls = true;
        supports_vision = true;
        supports_system_prompt = false;
        supports_thinking = true;
        supports_token_counting = false;
        supports_json_schema_strict = true;
        max_output_tokens = 100000;
      },
    )
    ∷ (
      "o4-mini",
      record {
        supports_tools = true;
        supports_parallel_tool_calls = true;
        supports_streaming_tool_calls = true;
        supports_vision = true;
        supports_system_prompt = false;
        supports_thinking = true;
        supports_token_counting = false;
        supports_json_schema_strict = true;
        max_output_tokens = 65536;
      },
    )
    ∷ (
      "gpt-4-turbo",
      record {
        supports_tools = true;
        supports_parallel_tool_calls = true;
        supports_streaming_tool_calls = true;
        supports_vision = true;
        supports_system_prompt = true;
        supports_thinking = false;
        supports_token_counting = false;
        supports_json_schema_strict = false;
        max_output_tokens = 4096;
      },
    )
    ∷ []
