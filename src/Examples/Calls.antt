-- ===== src/Examples/Calls.antt =====
-- rpcmple_cpp/src_examples/example4RPCServerOverTCP.cpp and example4RPCClientOverTCP.cpp: the four calls.
use rpcmple.Variant.{Variant}
use rpcmple.Server.{Procedure, Server, called}
use rpcmple.Server
use rpcmple.Client.{Client, RemoteProcedure}
use rpcmple.Client
