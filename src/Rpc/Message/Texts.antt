-- ===== src/Rpc/Message/Texts.antt =====
-- The texts of the calls.
use verus_gateway.Base.{◌≡◌, true, ◌++◌, arith, nat_eq, list_eq}
use verus_gateway.Base.Bytes.{Byte, Str, lit}
use verus_gateway.Domain.Request.{is_alphanumeric}
use verus_gateway.Rpc.Message.{is_plain}

-- The text before the viewing key, between it and the TXID, and behind.
abbrev pub head : Str
head =
    lit "{\"jsonrpc\":\"2.0\",\"id\":1,\"method\":\"decryptdata\",\"params\":[{\"datadescriptor\":"
    ++ (lit "{\"flags\":0,\"objectdata\":{\"iP3euVSzNcXUrLNHnQnR9G6q8jeYuGSxgw\":{\"flags\":1,"
        ++ (lit "\"objectnum\":0,\"output\":{\"txid\":"
            ++ (lit "\"0000000000000000000000000000000000000000000000000000000000000000\","
                ++ lit
                    "\"voutnum\":0},\"subobject\":0,\"type\":0,\"version\":1}},\"version\":1},\"evk\":\"")))

abbrev pub middle : Str
middle = lit "\",\"retrieve\":true,\"txid\":\""

abbrev pub tail : Str
tail = lit "\"}]}"

is_plain-alphanumeric : (c : Byte) → is_alphanumeric c ≡ true → is_plain c ≡ true
unfolding is_plain
is_plain-alphanumeric c h = ground arith
